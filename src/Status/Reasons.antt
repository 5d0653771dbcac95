-- ===== src/Status/Reasons.antt =====
-- The constants of utils/conditions/conditions.go that the model uses.
use intuit_argo_rollouts_dem.Prelude.{String}

abbrev pub available_reason : String
available_reason = "AvailableReason"

abbrev pub not_available_message : String
not_available_message = "Rollout does not have minimum availability"

abbrev pub available_message : String
available_message = "Rollout has minimum availability"

abbrev pub replica_set_updated_reason : String
replica_set_updated_reason = "ReplicaSetUpdated"

abbrev pub rollout_completed_reason : String
rollout_completed_reason = "RolloutCompleted"

abbrev pub rollout_healthy_reason : String
rollout_healthy_reason = "RolloutHealthy"

abbrev pub rollout_healthy_message : String
rollout_healthy_message = "Rollout is healthy"

abbrev pub rollout_not_healthy_message : String
rollout_not_healthy_message = "Rollout is not healthy"

abbrev pub rollout_aborted_reason : String
rollout_aborted_reason = "RolloutAborted"

abbrev pub rollout_retry_reason : String
rollout_retry_reason = "RolloutRetry"

abbrev pub rollout_retry_message : String
rollout_retry_message = "Retrying Rollout after abort"

abbrev pub rollout_paused_reason : String
rollout_paused_reason = "RolloutPaused"

abbrev pub rollout_paused_message : String
rollout_paused_message = "Rollout is paused"

abbrev pub replica_set_not_available_reason : String
replica_set_not_available_reason = "ReplicaSetNotAvailable"

abbrev pub rollout_resumed_reason : String
rollout_resumed_reason = "RolloutResumed"

abbrev pub rollout_resumed_message : String
rollout_resumed_message = "Rollout is resumed"

abbrev pub new_rs_available_reason : String
new_rs_available_reason = "NewReplicaSetAvailable"

abbrev pub timed_out_reason : String
timed_out_reason = "ProgressDeadlineExceeded"

abbrev pub rollout_aborted_message : String
rollout_aborted_message = "Rollout aborted update to revision "
