-- ===== src/Canary.antt =====
-- utils/replicaset/canary.go: the current step and weight of a canary rollout, and how many replicas
-- the canary and the stable ReplicaSet are to have.
pub mod Floats
pub mod Types
pub mod Steps
pub mod Approximate
pub mod Routed
pub mod ReplicaSets
pub mod Fenceposts
pub mod Basic
pub mod Pausing
mod Examples
