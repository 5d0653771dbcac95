-- ===== src/Rollout/ConditionTypes.antt =====
-- The constants of RolloutConditionType, pkg/apis/rollouts/v1alpha1/types.go.
use intuit_argo_rollouts_dem.Rollout.{RolloutConditionType}

abbrev pub invalid_spec : RolloutConditionType
invalid_spec = "InvalidSpec"

abbrev pub available : RolloutConditionType
available = "Available"

abbrev pub progressing : RolloutConditionType
progressing = "Progressing"

abbrev pub replica_failure : RolloutConditionType
replica_failure = "ReplicaFailure"

abbrev pub paused : RolloutConditionType
paused = "Paused"

abbrev pub completed : RolloutConditionType
completed = "Completed"

abbrev pub healthy : RolloutConditionType
healthy = "Healthy"
