-- ===== src/Status.antt =====
-- The status of a rollout: its conditions, utils/conditions/conditions.go, its phase,
-- utils/rollout/rolloututil.go, and the functions of rollout/sync.go that compute them.
pub mod Reasons
pub mod Conditions
pub mod Progress
pub mod Phase
mod Examples
