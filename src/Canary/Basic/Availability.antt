-- ===== src/Canary/Basic/Availability.antt =====
-- What draining and adjusting one pair of ReplicaSets leaves available.
use intuit_argo_rollouts_dem.Prelude.{
  ℕ, ◌+◌, ◌≤◌, ◌≡◌, some, ℤ, pos, pos_part, neg_part, add32, sub32, ◌≤ℤ◌, ◌⊎◌, eq_of_parts, arith,
}
use intuit_argo_rollouts_dem.Canary.Types.{ReplicaSet}
use intuit_argo_rollouts_dem.Canary.Basic.{
  min_value, max_value, calculate_scale_down_replica_count, over_the_limit, available_of_drain,
  adjust_replica_within_limits,
}
use intuit_argo_rollouts_dem.Canary.Basic.Surge.{IsCount, add32-near, sub32-near, adjusted_near}

-- Two numbers add up to at least k.
abbrev pub IsEnough : ℕ → ℤ → ℤ → Type 0
IsEnough k x y = k + neg_part x + neg_part y ≤ pos_part x + pos_part y

-- Of the reduced count, enough is added back.
added_back-IsEnough :
    (k : ℕ) (left available reduced min : ℤ)
    → IsCount left
    → IsCount available
    → (neg_part reduced ≤ 500000000) × (pos_part reduced ≤ 500000000)
    → IsCount min
    → k ≤ pos_part min
    → k ≤ pos_part left + pos_part available
    → let total = add32 left (min_value available reduced) in
      let extra = max_value (pos 0) (sub32 available reduced) in
      let more = max_value (pos 0) (sub32 min total) in
      let adjusted = add32 reduced (min_value extra more) in
      IsEnough k left (min_value available adjusted)
      × ((adjusted ≤ℤ available) ⊎ ((available ≤ℤ adjusted) × (adjusted ≤ℤ reduced)))
added_back-IsEnough k left available reduced min l a r m km kl =
    let total = add32-near left (min_value available reduced) (ground arith) (ground arith) in
    let sum = add32 left (min_value available reduced) in
    let spare = sub32-near available reduced (ground arith) (ground arith) in
    let need = sub32-near min sum (ground arith) (ground arith) in
    let extra = max_value (pos 0) (sub32 available reduced) in
    let more = max_value (pos 0) (sub32 min sum) in
    let last = add32-near reduced (min_value extra more) (ground arith) (ground arith) in
    ground arith

-- The adjusted count, reduced by what is over the limit, fits the limit.
pub reduced_fits :
    (drain adjust max : ℤ)
    → IsCount drain
    → IsCount adjust
    → IsCount max
    → let reduced = sub32 adjust (over_the_limit adjust drain max) in
      (neg_part reduced ≤ 500000000)
      × (pos_part reduced ≤ 500000000)
      × (pos_part reduced + pos_part drain ≤ pos_part max + neg_part reduced)
unfolding over_the_limit
reduced_fits drain adjust max d a m =
    let total = add32-near adjust drain (ground arith) (ground arith) in
    let over = sub32-near (add32 adjust drain) max (ground arith) (ground arith) in
    let excess = max_value (pos 0) (sub32 (add32 adjust drain) max) in
    let reduced = sub32-near adjust excess (ground arith) (ground arith) in ground arith

-- Draining what is still over the limit leaves enough.
drained-IsEnough :
    (k : ℕ) (held drain available adjusted reduced max : ℤ)
    → IsCount held
    → IsCount drain
    → IsCount available
    → IsCount max
    → (neg_part adjusted ≤ 500000000) × (pos_part adjusted ≤ 500000000)
    → k ≤ pos_part max
    → pos_part reduced + pos_part drain ≤ pos_part max + neg_part reduced
    → (adjusted ≤ℤ available) ⊎ ((available ≤ℤ adjusted) × (adjusted ≤ℤ reduced))
    → IsEnough k (min_value held drain) (min_value available adjusted)
    → IsEnough k
        (min_value held (sub32 drain (over_the_limit adjusted drain max)))
        (min_value available adjusted)
unfolding over_the_limit
drained-IsEnough k held drain available adjusted reduced max h d a m near km fits cases enough =
    let total = add32-near adjusted drain (ground arith) (ground arith) in
    let over = sub32-near (add32 adjusted drain) max (ground arith) (ground arith) in
    let excess = max_value (pos 0) (sub32 (add32 adjusted drain) max) in
    let left = sub32-near drain excess (ground arith) (ground arith) in ground arith

pub add32-zero : (z : ℤ) → IsCount z → add32 (pos 0) z ≡ z
add32-zero z c =
    let sum = add32-near (pos 0) z (omega arith) (omega arith) in
    eq_of_parts (add32 (pos 0) z) z (omega arith)

pub adjust-IsEnough :
    (k : ℕ) (d r : ReplicaSet) (drain adjust max min : ℤ)
    → IsCount d.available_replicas
    → IsCount r.available_replicas
    → IsCount drain
    → IsCount adjust
    → IsCount max
    → IsCount min
    → k ≤ pos_part min
    → k ≤ pos_part max
    → IsEnough k (min_value d.available_replicas drain) (min_value r.available_replicas adjust)
    → let counts = adjust_replica_within_limits (some d) (some r) drain adjust max min in
      IsEnough k (min_value d.available_replicas counts.0) (min_value r.available_replicas counts.1)
unfolding adjust_replica_within_limits available_of_drain
adjust-IsEnough k d r drain adjust max min da ra dc ac mc nc km kx enough =
    let reduced = sub32 adjust (over_the_limit adjust drain max) in
    let (low, high, fits) = reduced_fits drain adjust max dc ac mc in
    let left = min_value d.available_replicas drain in
    let left_ok : IsCount left = ground arith in
    let (back, cases) =
      added_back-IsEnough k left r.available_replicas reduced min left_ok ra (low, high) nc km
        (ground arith) in
    let total = add32 left (min_value r.available_replicas reduced) in
    let near = adjusted_near drain adjust max r.available_replicas (sub32 min total) dc ac mc ra in
    let adjusted = add32 reduced (
      min_value (max_value (pos 0) (sub32 r.available_replicas reduced))
        (max_value (pos 0) (sub32 min total))) in
    rw (add32-zero left left_ok) (
      drained-IsEnough k d.available_replicas drain r.available_replicas adjusted reduced max da dc
        ra mc near kx fits cases back)

-- Draining one set to the minimum that the other leaves.
pub drain-IsEnough :
    (k : ℕ) (rs : ReplicaSet) (other total desired drain min : ℤ)
    → IsCount rs.replicas
    → IsCount rs.available_replicas
    → IsCount other
    → IsCount desired
    → IsCount drain
    → IsCount min
    → neg_part total ≡ 0
    → pos_part total ≡ pos_part rs.replicas + pos_part other
    → pos_part rs.replicas ≤ pos_part drain
    → k ≤ pos_part min
    → IsEnough k (min_value rs.available_replicas rs.replicas) other
    → IsEnough k
        (min_value rs.available_replicas
          (calculate_scale_down_replica_count (some rs) desired (sub32 total min) drain))
        other
unfolding calculate_scale_down_replica_count
drain-IsEnough k rs other total desired drain min p a o d dc m up eq le km enough =
    let count = sub32-near total min (ground arith) (ground arith) in
    let rest = sub32-near rs.replicas (sub32 total min) (ground arith) (ground arith) in
    ground arith
