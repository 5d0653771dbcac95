-- ===== src/Traffic/Abort.antt =====
-- The weight during an abort or a rollback.
use intuit_argo_rollouts_dem.Prelude.{
  ◌≡◌, ℕ, suc, ◌*◌, ◌/◌, ◌-◌, ◌≤◌, Option, none, some, ℤ, pos, ◌≤ℤ◌,
}
use intuit_argo_rollouts_dem.Rollout.{Rollout, TrafficWeights}

-- The recorded weight of the canary, where there is one, is not negative.
abbrev pub IsRecorded : Option TrafficWeights → Type 0
IsRecorded none = pos 0 ≤ℤ pos 0
IsRecorded (some w) = pos 0 ≤ℤ w.canary.weight

-- The weight is that of the share of the pods that are not yet available in the stable set, at most.
abbrev pub IsDecreasing : (m r a : ℕ) → Option ℤ → Type 0
IsDecreasing m r a result = (w : ℕ) × (result ≡ some (pos w)) × (w ≤ m - m * a / suc r)
