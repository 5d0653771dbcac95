-- ===== src/Canary/Types.antt =====
-- A ReplicaSet as the code reads it; the recorded traffic weights are passed on.
use intuit_argo_rollouts_dem.Prelude.{String, Option, List, ℤ}
use intuit_argo_rollouts_dem.Common.{Time}
pub use intuit_argo_rollouts_dem.Rollout.{WeightDestination, TrafficWeights}
use intuit_argo_rollouts_dem.Rollout.{ConditionStatus}

-- appsv1.ReplicaSetCondition; its type is a text.
pub record ReplicaSetCondition : Type 0 where
  pub kind : String
  pub status : ConditionStatus
  pub last_transition_time : Time
  pub reason : String
  pub message : String

-- `*rs.Spec.Replicas`, the available, actual and ready replicas of the status, the label with the
-- hash of the pod template, the creation time, the annotation with the deadline for scaling down,
-- if it is there, and the one with the name of an experiment, which is empty if it is not, the
-- annotation with the desired replicas, and the conditions of the status.
pub record ReplicaSet : Type 0 where
  pub name : String
  pub replicas : ℤ
  pub available_replicas : ℤ
  pub current_replicas : ℤ
  pub ready_replicas : ℤ
  pub pod_hash : String
  pub created : Time
  pub scale_down_deadline : Option String
  pub experiment_name : String
  pub desired_replicas : String
  pub conditions : List ReplicaSetCondition
