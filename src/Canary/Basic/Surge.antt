-- ===== src/Canary/Basic/Surge.antt =====
-- The counts of a basic canary stay within the surge limit. Sums of int32 counts that cannot wrap are
-- compared through the two parts of an integer.
use intuit_argo_rollouts_dem.Prelude.{
  ◌+◌, ◌≤◌, ◌≡◌, ◌⊎◌, Bool, true, false, Option, none, some, ℤ, pos, pos_part, neg_part, ◌+ℤ◌, ◌-ℤ◌,
  add32, sub32, int32-eq, int_laws, parts_disjoint, arith, if◌then◌else◌,
}
use intuit_argo_rollouts_dem.Canary.Types.{ReplicaSet}
use intuit_argo_rollouts_dem.Canary.Basic.{
  min_value, max_value, replicas_or_zero, calculate_scale_down_replica_count, over_the_limit,
  scale_up, scale_up_if, scaled_up,
}

-- A count of replicas that is far from the limits of int32.
abbrev pub IsCount : ℤ → Type 0
IsCount z = (neg_part z ≡ 0) × (pos_part z ≤ 134217728)

-- Sums and differences of two of these do not wrap.
abbrev pub IsNear : ℤ → Type 0
IsNear z = (neg_part z ≤ 1073741823) × (pos_part z ≤ 1073741823)

pub add32-near :
    (a b : ℤ)
    → IsNear a
    → IsNear b
    → (pos_part (add32 a b) + neg_part a + neg_part b
        ≡ neg_part (add32 a b) + pos_part a + pos_part b)
      × ((pos_part (add32 a b) ≡ 0) ⊎ (neg_part (add32 a b) ≡ 0))
unfolding add32
add32-near a b h k =
    let d = parts_disjoint (a +ℤ b) in
    rw (int32-eq (a +ℤ b) (omega int_laws, omega int_laws)) (omega int_laws, d)

pub sub32-near :
    (a b : ℤ)
    → IsNear a
    → IsNear b
    → (pos_part (sub32 a b) + neg_part a + pos_part b
        ≡ neg_part (sub32 a b) + pos_part a + neg_part b)
      × ((pos_part (sub32 a b) ≡ 0) ⊎ (neg_part (sub32 a b) ≡ 0))
unfolding sub32
sub32-near a b h k =
    let d = parts_disjoint (a -ℤ b) in
    rw (int32-eq (a -ℤ b) (omega int_laws, omega int_laws)) (omega int_laws, d)

-- What remains of a drained count is within the limit.
pub drained_within :
    (drain adjusted max : ℤ)
    → IsCount drain
    → IsCount max
    → (neg_part adjusted ≤ 500000000) × (pos_part adjusted ≤ 500000000)
    → let left = sub32 drain (over_the_limit adjusted drain max) in
      pos_part left + pos_part adjusted ≤ pos_part max + neg_part left + neg_part adjusted
unfolding over_the_limit
drained_within drain adjusted max d m a =
    let total = add32-near adjusted drain (ground arith) (ground arith) in
    let over = sub32-near (add32 adjusted drain) max (ground arith) (ground arith) in
    let excess = max_value (pos 0) (sub32 (add32 adjusted drain) max) in
    let left = sub32-near drain excess (ground arith) (ground arith) in ground arith

-- The adjusted count is near the counts it is computed from.
pub adjusted_near :
    (drain adjust max available more : ℤ)
    → IsCount drain
    → IsCount adjust
    → IsCount max
    → IsCount available
    → let reduced = sub32 adjust (over_the_limit adjust drain max) in
      let adjusted =
        add32 reduced
          (min_value (max_value (pos 0) (sub32 available reduced)) (max_value (pos 0) more)) in
      (neg_part adjusted ≤ 500000000) × (pos_part adjusted ≤ 500000000)
unfolding over_the_limit
adjusted_near drain adjust max available more d a m v =
    let total = add32-near adjust drain (ground arith) (ground arith) in
    let over = sub32-near (add32 adjust drain) max (ground arith) (ground arith) in
    let excess = max_value (pos 0) (sub32 (add32 adjust drain) max) in
    let reduced = sub32-near adjust excess (ground arith) (ground arith) in
    let extra = sub32-near available (sub32 adjust excess) (ground arith) (ground arith) in
    let gain =
      min_value (max_value (pos 0) (sub32 available (sub32 adjust excess)))
        (max_value (pos 0) more) in
    let last = add32-near (sub32 adjust excess) gain (ground arith) (ground arith) in ground arith

-- A set that is drained gets no more than it would have kept.
pub drain-le :
    (rs : Option ReplicaSet) (desired count drain : ℤ)
    → IsCount (replicas_or_zero rs)
    → IsCount desired
    → IsCount drain
    → pos_part (replicas_or_zero rs) ≤ pos_part drain
    → IsNear count
    → neg_part count ≡ 0
    → let left = calculate_scale_down_replica_count rs desired count drain in
      IsCount left × (pos_part left ≤ pos_part drain)
unfolding calculate_scale_down_replica_count
drain-le none desired count drain r d k le near up = ground arith
drain-le (some rs) desired count drain r d k le near up =
    let rest = sub32-near rs.replicas count (ground arith) near in ground arith

-- Scaling up takes from the surplus what it gives to the set.
scale_up-budget :
    (current desired surplus : ℤ)
    → IsCount current
    → IsCount desired
    → IsNear surplus
    → let after = scale_up current desired current surplus in
      IsCount after.0
      × (pos_part current ≤ pos_part after.0)
      × (pos_part after.0 + pos_part after.1 ≤ pos_part current + pos_part surplus)
      × IsNear after.1
unfolding scale_up
scale_up-budget current desired surplus c d near =
    let sum = add32-near current surplus (ground arith) near in
    let gap = sub32-near desired current (ground arith) (ground arith) in
    let left = sub32-near surplus (sub32 desired current) near (ground arith) in ground arith

pub scale_up_if-budget :
    (rs : Option ReplicaSet) (allowed : Bool) (desired surplus : ℤ)
    → IsCount (replicas_or_zero rs)
    → IsCount desired
    → IsNear surplus
    → let current = if allowed then replicas_or_zero rs else pos 0 in
      let after = scale_up_if rs allowed desired current surplus in
      IsCount after.0
      × (pos_part current ≤ pos_part after.0)
      × (pos_part after.0 + pos_part after.1 ≤ pos_part current + pos_part surplus)
      × IsNear after.1
unfolding scale_up_if
scale_up_if-budget none true desired surplus c d near = ground arith
scale_up_if-budget none false desired surplus c d near = ground arith
scale_up_if-budget (some rs) false desired surplus c d near = ground arith
scale_up_if-budget (some rs) true desired surplus c d near =
    scale_up-budget rs.replicas desired surplus c d near

-- The replicas of the stable set, where it is one of its own.
abbrev pub stable_part : Option ReplicaSet → Bool → ℤ
stable_part stable_rs scale_stable = if scale_stable then replicas_or_zero stable_rs else pos 0

pub scaled_up-budget :
    (new_rs stable_rs : Option ReplicaSet) (scale_stable : Bool)
    (desired_new desired_stable surplus : ℤ)
    → IsCount (replicas_or_zero new_rs)
    → IsCount (replicas_or_zero stable_rs)
    → IsCount desired_new
    → IsCount desired_stable
    → IsNear surplus
    → let after = scaled_up new_rs stable_rs scale_stable desired_new desired_stable surplus in
      IsCount after.0
      × IsCount after.1
      × (pos_part (replicas_or_zero new_rs) ≤ pos_part after.0)
      × (pos_part (stable_part stable_rs scale_stable) ≤ pos_part after.1)
      × (pos_part after.0 + pos_part after.1
          ≤ pos_part (replicas_or_zero new_rs)
            + pos_part (stable_part stable_rs scale_stable)
            + pos_part surplus)
unfolding scaled_up
scaled_up-budget new_rs stable_rs scale_stable desired_new desired_stable surplus n s dn ds near =
    let first = scale_up_if-budget stable_rs scale_stable desired_stable surplus s ds near in
    let (_, _, _, rest) = first in
    let left =
      (scale_up_if stable_rs scale_stable desired_stable (stable_part stable_rs scale_stable)
        surplus).1 in
    let second = scale_up_if-budget new_rs true desired_new left n dn rest in ground arith
