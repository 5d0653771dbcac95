-- ===== src/Status/Examples.antt =====
-- Examples of conditions and phases.
use intuit_argo_rollouts_dem.Prelude.{◌≡◌, ◌≢◌, ◌↔◌, [], ◌∷◌, pos}
use intuit_argo_rollouts_dem.Rollout.{
  RolloutCondition, RolloutConditionType, condition_true, condition_false, RolloutStatus,
  healthy_phase,
}
use intuit_argo_rollouts_dem.Rollout.ConditionTypes
use intuit_argo_rollouts_dem.Rollout.Sample.{rollout, status}
use intuit_argo_rollouts_dem.Status.Conditions.{get_rollout_condition, set_rollout_condition}
use intuit_argo_rollouts_dem.Status.Conditions.Laws.{IsPut, set_rollout_condition-get}
use intuit_argo_rollouts_dem.Status.Phase.{calculate_rollout_phase}
use intuit_argo_rollouts_dem.Status.Phase.Healthy.{IsHealthy, calculate_rollout_phase-IsHealthy}

abbrev timed_out : RolloutCondition
timed_out = record {
  kind = ConditionTypes.progressing;
  status = condition_false;
  last_update_time = pos 100;
  last_transition_time = pos 100;
  reason = "ProgressDeadlineExceeded";
  message = "";
}

abbrev progressing : RolloutStatus
progressing = record status {
  conditions = record timed_out { status = condition_true; reason = "ReplicaSetUpdated" } ∷ [];
}

set_rollout_condition-get_example :
    IsPut timed_out
      (get_rollout_condition progressing ConditionTypes.progressing)
      (set_rollout_condition progressing timed_out).0
    × ((k : RolloutConditionType)
        → k ≢ ConditionTypes.progressing
        → get_rollout_condition (set_rollout_condition progressing timed_out).0 k
          ≡ get_rollout_condition progressing k)
set_rollout_condition-get_example = set_rollout_condition-get progressing timed_out

calculate_rollout_phase-IsHealthy_example :
    ((calculate_rollout_phase rollout.spec progressing).0 ≡ healthy_phase)
    ↔ IsHealthy rollout.spec progressing
calculate_rollout_phase-IsHealthy_example =
    calculate_rollout_phase-IsHealthy rollout.spec progressing
