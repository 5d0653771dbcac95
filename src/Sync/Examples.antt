-- ===== src/Sync/Examples.antt =====
-- Examples of the status of a canary.
use intuit_argo_rollouts_dem.Prelude.{
  ◌≡◌, ◌≤◌, refl, true, false, not, ◌&&◌, ◌||◌, none, some, [], arith, is_some, if◌then◌else◌,
}
use intuit_argo_rollouts_dem.Rollout.{RolloutStatus}
use intuit_argo_rollouts_dem.Rollout.ConditionTypes
use intuit_argo_rollouts_dem.Rollout.Sample.{rollout, status, canary}
use intuit_argo_rollouts_dem.Canary.Floats.Rational.{rational}
use intuit_argo_rollouts_dem.Canary.Steps.{index_or_zero, get_current_canary_step}
use intuit_argo_rollouts_dem.Pause.{
  is_aborted, completed_canary_pause_step, get_pause_condition, remove_abort,
  clear_pause_conditions, remove_pause_condition,
}
use intuit_argo_rollouts_dem.Rollout.Defaults.{get_replicas_or_default}
use intuit_argo_rollouts_dem.Context.{RolloutContext}
use intuit_argo_rollouts_dem.Sync.{
  should_full_promote, is_rollback_within_window, calculate_base_status,
}
use intuit_argo_rollouts_dem.Sync.Sample.{library, whole, context, now}
use intuit_argo_rollouts_dem.Sync.Reason.{is_promotable}
use intuit_argo_rollouts_dem.Sync.Conditions.{calculate_rollout_conditions}
use intuit_argo_rollouts_dem.Sync.Conditions.Aborts.{
  IsAbortedBy, calculate_rollout_conditions-IsAbortedBy,
}
use intuit_argo_rollouts_dem.Sync.Conditions.Outcome.{
  HasStatus, calculate_rollout_conditions-HasStatus,
}
use intuit_argo_rollouts_dem.Sync.Canary.{
  next_canary_status, check_step_hash_change, check_pod_spec_change, completed_current_canary_step,
  increment, pod_template_or_steps_changed, canary_base, skips_steps, unskipped,
  sync_rollout_status_canary,
}
use intuit_argo_rollouts_dem.Sync.Canary.Moves.{Moves}
use intuit_argo_rollouts_dem.Sync.Canary.Indexes.{completes}
use intuit_argo_rollouts_dem.Sync.Canary.Transitions.{
  situation_of, sync_rollout_status_canary-Moves, sync_rollout_status_canary_bound,
}
use intuit_argo_rollouts_dem.Sync.Canary.Promotion.{IsKept, sync_rollout_status_canary-stable}
use intuit_argo_rollouts_dem.Sync.Canary.Total.{sync_rollout_status_canary_total}

abbrev sent :
    (s : RolloutStatus) × (sync_rollout_status_canary library rational whole now context ≡ some s)
sent = sync_rollout_status_canary_total library rational whole now context refl

sync_rollout_status_canary-Moves_example :
    Moves (situation_of library rational whole now context) 3 1 sent.0.current_step_index
sync_rollout_status_canary-Moves_example =
    sync_rollout_status_canary-Moves library rational whole now context sent.0 refl sent.1

sync_rollout_status_canary_bound_example : index_or_zero sent.0.current_step_index ≤ (
    if skips_steps context && completes library rational whole now (unskipped context)
    then 4
    else 3)
sync_rollout_status_canary_bound_example =
    sync_rollout_status_canary_bound library rational whole now context sent.0 refl (ground arith)
      sent.1

sync_rollout_status_canary-stable_example :
    IsKept "old"
      (not (pod_template_or_steps_changed context)
        && (not (is_some (unskipped context).stable_rs)
            || is_promotable (unskipped context) (canary false)))
      sent.0
sync_rollout_status_canary-stable_example =
    sync_rollout_status_canary-stable library rational whole now context sent.0 (canary false) refl
      sent.1

calculate_rollout_conditions-IsAbortedBy_example :
    IsAbortedBy now context status (calculate_rollout_conditions now library context status).0
calculate_rollout_conditions-IsAbortedBy_example =
    calculate_rollout_conditions-IsAbortedBy now library context status

calculate_rollout_conditions-HasStatus_example :
    HasStatus ConditionTypes.completed false
      (calculate_rollout_conditions now library context status).1
calculate_rollout_conditions-HasStatus_example =
    calculate_rollout_conditions-HasStatus now library context status

-- The same, in a full promotion whose new ReplicaSet is not available yet, after the pause
-- conditions were cleared.
abbrev promoting : RolloutContext
promoting = record context {
  pause = record context.pause {
    rollout = record rollout {
      status = record status { promote_full = true; pause_conditions = [] };
    };
  };
}

past_the_end :
    elim (next_canary_status library rational whole now promoting) [
      | none ↦ none
      | some (c, s) ↦ s.current_step_index
    ]
    ≡ some 4
past_the_end =
    unfold next_canary_status pod_template_or_steps_changed check_step_hash_change
      check_pod_spec_change unskipped skips_steps should_full_promote is_rollback_within_window
      canary_base calculate_base_status is_aborted completed_current_canary_step
      get_current_canary_step completed_canary_pause_step get_pause_condition remove_abort
      clear_pause_conditions remove_pause_condition get_replicas_or_default increment in
    refl
