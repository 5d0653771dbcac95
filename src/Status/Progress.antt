-- ===== src/Status/Progress.antt =====
-- utils/conditions/conditions.go: progress, health, completion and time-out of a rollout.
use intuit_argo_rollouts_dem.Prelude.{
  Bool, true, false, not, ◌&&◌, ◌||◌, Option, none, some, ℕ, ◌==◌, ℤ, pos, ◌+ℤ◌, ◌*ℤ◌, sub32,
  str_eq, eqb_ℤ, ltb_ℤ, show_int, length, if◌then◌else◌,
}
use intuit_argo_rollouts_dem.Common.{Time}
use intuit_argo_rollouts_dem.Rollout.{
  CanaryStrategy, BlueGreenStrategy, RolloutCondition, RolloutStatus, Rollout,
}
use intuit_argo_rollouts_dem.Rollout.ConditionTypes
use intuit_argo_rollouts_dem.Rollout.Defaults.{
  get_replicas_or_default, get_progress_deadline_seconds_or_default,
}
use intuit_argo_rollouts_dem.Status.Reasons.{rollout_aborted_reason, timed_out_reason}
use intuit_argo_rollouts_dem.Status.Conditions.{get_rollout_condition}

-- Whether two step indices are there and differ.
abbrev index_changed : Option ℕ → Option ℕ → Bool
index_changed (some i) (some j) = not (i == j)
index_changed _ _ = false

blue_green_progress : Option BlueGreenStrategy → (old new : RolloutStatus) → Bool
blue_green_progress none old new = false
blue_green_progress (some b) old new =
    not (str_eq old.blue_green.active_selector new.blue_green.active_selector)
    || not (str_eq old.blue_green.preview_selector new.blue_green.preview_selector)

-- A canary's own progress takes the place of that of a blue-green strategy.
strategy_progress : Option CanaryStrategy → Bool → (old new : RolloutStatus) → Bool
strategy_progress none before old new = before
strategy_progress (some c) before old new =
    not (str_eq new.stable_rs old.stable_rs)
    || index_changed new.current_step_index old.current_step_index
    || not (str_eq new.current_step_hash old.current_step_hash)

unfoldable pub rollout_progressing : Rollout → RolloutStatus → Bool
unfolding blue_green_progress strategy_progress
rollout_progressing ro new =
    let old = ro.status in
    not (eqb_ℤ new.updated_replicas old.updated_replicas)
    || ltb_ℤ (sub32 new.replicas new.updated_replicas) (sub32 old.replicas old.updated_replicas)
    || ltb_ℤ old.ready_replicas new.ready_replicas
    || ltb_ℤ old.available_replicas new.available_replicas
    || strategy_progress ro.spec.canary (blue_green_progress ro.spec.blue_green old new) old new

blue_green_complete : Option BlueGreenStrategy → RolloutStatus → Bool
blue_green_complete none new = true
blue_green_complete (some b) new =
    str_eq new.blue_green.active_selector new.current_pod_hash
    && (str_eq b.preview_service "" || str_eq new.blue_green.preview_selector new.current_pod_hash)

-- Whether an index that is there is the number of steps, if there are steps.
abbrev pub executed_all_steps : ℕ → Option ℕ → Bool
executed_all_steps count none = true
executed_all_steps count (some i) = count == 0 || count == i

canary_complete : Option CanaryStrategy → (replicas : ℤ) → Bool → RolloutStatus → Bool
canary_complete none replicas before new = before
canary_complete (some c) replicas before new =
    executed_all_steps (length c.steps) new.current_step_index
    && (not (str_eq new.stable_rs "") && str_eq new.stable_rs new.current_pod_hash)
    && eqb_ℤ new.replicas replicas

unfoldable pub rollout_healthy : Rollout → RolloutStatus → Bool
unfolding blue_green_complete canary_complete
rollout_healthy ro new =
    let replicas = get_replicas_or_default ro.spec.replicas in
    eqb_ℤ new.updated_replicas replicas
    && eqb_ℤ new.available_replicas replicas
    && str_eq ro.status.observed_generation (show_int ro.generation)
    && canary_complete ro.spec.canary replicas (blue_green_complete ro.spec.blue_green new) new

unfoldable pub rollout_completed : RolloutStatus → Bool
rollout_completed new = not (str_eq new.stable_rs "") && str_eq new.stable_rs new.current_pod_hash

-- Of the progressing condition: it is older than the deadline, in seconds.
unfoldable pub timed_out_by : (now : Time) (seconds : ℤ) → Option RolloutCondition → Bool
timed_out_by now seconds none = false
timed_out_by now seconds (some c) =
    if str_eq c.reason rollout_aborted_reason
    then false
    else str_eq c.reason timed_out_reason
      || ltb_ℤ (c.last_update_time +ℤ seconds *ℤ pos 1_000_000_000) now

unfoldable pub rollout_timed_out : Time → Rollout → RolloutStatus → Bool
unfolding timed_out_by
rollout_timed_out now ro new =
    timed_out_by now (get_progress_deadline_seconds_or_default ro)
      (get_rollout_condition new ConditionTypes.progressing)
