-- ===== src/Canary/Basic/Within.antt =====
-- The replicas that the basic canary calculation asks for, in all, against the surge limit.
use intuit_argo_rollouts_dem.Prelude.{
  ℕ, ◌+◌, ◌≤◌, ◌≡◌, refl, Bool, true, false, not, ◌||◌, Option, none, some, ℤ, pos, pos_part,
  neg_part, add32, sub32, leb_ℤ, arith, is_some, if◌then◌else◌,
}
use intuit_argo_rollouts_dem.Canary.Types.{ReplicaSet}
use intuit_argo_rollouts_dem.Canary.ReplicaSets.{get_replicas_for_scale_down}
use intuit_argo_rollouts_dem.Canary.Basic.{
  min_value, max_value, replicas_or_zero, calculate_scale_down_replica_count, over_the_limit,
  available_of_drain, adjust_replica_within_limits, scaled_down,
}
use intuit_argo_rollouts_dem.Canary.Basic.Surge.{
  IsCount, IsNear, add32-near, sub32-near, drained_within, adjusted_near, drain-le, stable_part,
}

abbrev available_or_zero : Option ReplicaSet → ℤ
available_or_zero none = pos 0
available_or_zero (some rs) = rs.available_replicas

-- Both numbers of a ReplicaSet are counts; a set that is not there has none.
abbrev pub IsCounted : Option ReplicaSet → Type 0
IsCounted rs = IsCount (replicas_or_zero rs) × IsCount (available_or_zero rs)

-- The two counts are, in all, at most a number.
abbrev pub IsWithin : ℤ × ℤ → ℕ → Type 0
IsWithin counts k =
    pos_part counts.0 + pos_part counts.1 ≤ k + neg_part counts.0 + neg_part counts.1

adjust-IsWithin :
    (drain_rs adjust_rs : Option ReplicaSet) (drain adjust max min : ℤ) (k : ℕ)
    → IsCounted adjust_rs
    → IsCount drain
    → IsCount adjust
    → IsCount max
    → pos_part max ≤ k
    → pos_part drain + pos_part adjust ≤ k
    → IsWithin (adjust_replica_within_limits drain_rs adjust_rs drain adjust max min) k
unfolding adjust_replica_within_limits
adjust-IsWithin drain_rs none drain adjust max min k c d a m le sum = omega arith
adjust-IsWithin drain_rs (some rs) drain adjust max min k c d a m le sum =
    let reduced = sub32 adjust (over_the_limit adjust drain max) in
    let total =
      add32 (available_of_drain drain_rs drain) (min_value rs.available_replicas reduced) in
    let near = adjusted_near drain adjust max rs.available_replicas (sub32 min total) d a m c.1 in
    let adjusted = add32 reduced (
      min_value (max_value (pos 0) (sub32 rs.available_replicas reduced))
        (max_value (pos 0) (sub32 min total))) in
    let fits = drained_within drain adjusted max d m near in omega arith

pub get_replicas_for_scale_down-IsCount :
    (rs : Option ReplicaSet) (ignore : Bool)
    → IsCounted rs
    → IsCount (get_replicas_for_scale_down rs ignore)
unfolding get_replicas_for_scale_down
get_replicas_for_scale_down-IsCount none ignore c = ground arith
get_replicas_for_scale_down-IsCount (some rs) true c = ground arith
get_replicas_for_scale_down-IsCount (some rs) false c = ground arith

pub count-IsNear :
    (a b min : ℤ)
    → IsCount a
    → IsCount b
    → IsCount min
    → leb_ℤ (add32 a b) min ≡ false
    → let count = sub32 (add32 a b) min in IsNear count × (neg_part count ≡ 0)
count-IsNear a b min h k m more =
    let sum = add32-near a b (ground arith) (ground arith) in
    let rest = sub32-near (add32 a b) min (ground arith) (ground arith) in ground arith

-- The choice among the three pairs of counts.
pub chosen :
    (P : ℤ × ℤ → Type 0) (stop increasing scale_stable : Bool) (same down swapped : ℤ × ℤ)
    → P same
    → (stop ≡ false → increasing ≡ false → P down)
    → (stop ≡ false → increasing ≡ true → scale_stable ≡ true → P swapped)
    → P (
        if stop
        then same
        else (if not increasing then down else (if scale_stable then swapped else same)))
chosen P true increasing scale_stable same down swapped a b c = a
chosen P false false scale_stable same down swapped a b c = b refl refl
chosen P false true true same down swapped a b c = c refl refl refl
chosen P false true false same down swapped a b c = a

module _ (new_rs stable_rs : Option ReplicaSet) (desired_new desired_stable max min new stable : ℤ)
    (k : ℕ) (new_ok : IsCounted new_rs) (stable_ok : IsCounted stable_rs) (dn : IsCount desired_new)
    (ds : IsCount desired_stable) (cm : IsCount max) (cmin : IsCount min) (n : IsCount new)
    (s : IsCount stable) (len : pos_part (replicas_or_zero new_rs) ≤ pos_part new)
    (le : pos_part max ≤ k) (sum : pos_part new + pos_part stable ≤ k) where
  drain_new-IsWithin :
      (count : ℤ)
      → IsNear count
      → neg_part count ≡ 0
      → IsWithin
          (adjust_replica_within_limits new_rs stable_rs
            (calculate_scale_down_replica_count new_rs desired_new count new)
            stable
            max
            min)
          k
  drain_new-IsWithin count near up =
      let (left, less) = drain-le new_rs desired_new count new new_ok.0 dn n len near up in
      adjust-IsWithin new_rs stable_rs
        (calculate_scale_down_replica_count new_rs desired_new count new) stable max min k stable_ok
        left s cm le (omega arith)

  drain_stable-IsWithin :
      (count : ℤ)
      → IsNear count
      → neg_part count ≡ 0
      → pos_part (replicas_or_zero stable_rs) ≤ pos_part stable
      → IsWithin
          (adjust_replica_within_limits stable_rs new_rs
            (calculate_scale_down_replica_count stable_rs desired_stable count stable)
            new
            max
            min)
          k
  drain_stable-IsWithin count near up les =
      let (left, less) =
        drain-le stable_rs desired_stable count stable stable_ok.0 ds s les near up in
      adjust-IsWithin stable_rs new_rs
        (calculate_scale_down_replica_count stable_rs desired_stable count stable) new max min k
        new_ok left n cm le (omega arith)

  -- What is scaled down is no more than it was after scaling up, or fits the limit.
  pub scaled_down-IsWithin :
      (scale_stable : Bool)
      → pos_part (stable_part stable_rs scale_stable) ≤ pos_part stable
      → IsWithin
          (scaled_down new_rs stable_rs scale_stable desired_new desired_stable max min new stable)
          k
  unfolding scaled_down
  scaled_down-IsWithin scale_stable les =
      let increasing = not (is_some new_rs) || leb_ℤ (replicas_or_zero new_rs) desired_new in
      let a = get_replicas_for_scale_down new_rs (not increasing) in
      let b = get_replicas_for_scale_down stable_rs increasing in
      let a_ok = get_replicas_for_scale_down-IsCount new_rs (not increasing) new_ok in
      let b_ok = get_replicas_for_scale_down-IsCount stable_rs increasing stable_ok in
      let count = sub32 (add32 a b) min in
      let swapped =
        adjust_replica_within_limits stable_rs new_rs
          (calculate_scale_down_replica_count stable_rs desired_stable count stable) new max min in
      chosen (λ c. IsWithin c k) (leb_ℤ (add32 a b) min) increasing scale_stable (new, stable)
        (adjust_replica_within_limits new_rs stable_rs
          (calculate_scale_down_replica_count new_rs desired_new count new) stable max min)
        (swapped.1, swapped.0) (omega arith)
        (λ more _.
          let (near, up) = count-IsNear a b min a_ok b_ok cmin more in
          drain_new-IsWithin count near up)
        (λ more _ yes.
          let (near, up) = count-IsNear a b min a_ok b_ok cmin more in
          let own : pos_part (replicas_or_zero stable_rs) ≤ pos_part stable = rw yes at les in
          let fits = drain_stable-IsWithin count near up own in omega arith)
