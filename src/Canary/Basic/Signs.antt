-- ===== src/Canary/Basic/Signs.antt =====
-- The counts of the basic canary calculation are not negative.
use intuit_argo_rollouts_dem.Prelude.{
  ◌+◌, ◌≤◌, ◌≡◌, refl, ap, ◌∙◌, Bool, true, not, ◌||◌, Option, none, some, ℤ, pos, pos_part,
  neg_part, add32, sub32, leb_ℤ, arith, is_some, ◌⊎◌,
}
use intuit_argo_rollouts_dem.Canary.Types.{ReplicaSet}
use intuit_argo_rollouts_dem.Canary.ReplicaSets.{get_replicas_for_scale_down}
use intuit_argo_rollouts_dem.Canary.Basic.{
  min_value, max_value, replicas_or_zero, calculate_scale_down_replica_count, over_the_limit,
  available_of_drain, adjust_replica_within_limits, scaled_down,
}
use intuit_argo_rollouts_dem.Canary.Basic.Surge.{IsCount, add32-near, sub32-near}
use intuit_argo_rollouts_dem.Canary.Basic.Within.{
  IsCounted, chosen, get_replicas_for_scale_down-IsCount,
}
use intuit_argo_rollouts_dem.Canary.Basic.Availability.{reduced_fits, add32-zero}

-- The adjusted count is between zero and the limit.
adjusted_bounds :
    (left available reduced max min : ℤ)
    → IsCount left
    → IsCount available
    → IsCount reduced
    → IsCount max
    → IsCount min
    → pos_part min ≤ pos_part max
    → pos_part reduced ≤ pos_part max
    → let total = add32 left (min_value available reduced) in
      let adjusted = add32 reduced (
        min_value
          (max_value (pos 0) (sub32 available reduced))
          (max_value (pos 0) (sub32 min total))) in
      (neg_part adjusted ≡ 0) × (pos_part adjusted ≤ pos_part max)
adjusted_bounds left available reduced max min l a r m v le fits =
    let sum = add32 left (min_value available reduced) in
    let total = add32-near left (min_value available reduced) (ground arith) (ground arith) in
    let spare = sub32-near available reduced (ground arith) (ground arith) in
    let need = sub32-near min sum (ground arith) (ground arith) in
    let extra = max_value (pos 0) (sub32 available reduced) in
    let more = max_value (pos 0) (sub32 min sum) in
    let last = add32-near reduced (min_value extra more) (ground arith) (ground arith) in
    ground arith

reduced-IsCount :
    (drain adjust max : ℤ)
    → IsCount drain
    → IsCount adjust
    → IsCount max
    → pos_part drain ≤ pos_part max
    → IsCount (sub32 adjust (over_the_limit adjust drain max))
unfolding over_the_limit
reduced-IsCount drain adjust max d a m le =
    let total = add32-near adjust drain (ground arith) (ground arith) in
    let over = sub32-near (add32 adjust drain) max (ground arith) (ground arith) in
    let excess = max_value (pos 0) (sub32 (add32 adjust drain) max) in
    let reduced = sub32-near adjust excess (ground arith) (ground arith) in ground arith

drained_nonneg :
    (drain adjusted max : ℤ)
    → IsCount drain
    → IsCount max
    → neg_part adjusted ≡ 0
    → pos_part adjusted ≤ pos_part max
    → neg_part (sub32 drain (over_the_limit adjusted drain max)) ≡ 0
unfolding over_the_limit
drained_nonneg drain adjusted max d m up le =
    let total = add32-near adjusted drain (ground arith) (ground arith) in
    let over = sub32-near (add32 adjusted drain) max (ground arith) (ground arith) in
    let excess = max_value (pos 0) (sub32 (add32 adjusted drain) max) in
    let left = sub32-near drain excess (ground arith) (ground arith) in ground arith

abbrev pub IsNatural : ℤ × ℤ → Type 0
IsNatural counts = (neg_part counts.0 ≡ 0) × (neg_part counts.1 ≡ 0)

adjusted-IsNatural :
    (left available drain adjust max min : ℤ)
    → IsCount left
    → IsCount available
    → IsCount drain
    → IsCount adjust
    → IsCount max
    → IsCount min
    → pos_part drain ≤ pos_part max
    → pos_part min ≤ pos_part max
    → let reduced = sub32 adjust (over_the_limit adjust drain max) in
      let adjusted = add32 reduced (
        min_value
          (max_value (pos 0) (sub32 available reduced))
          (max_value (pos 0) (sub32 min (add32 left (min_value available reduced))))) in
      IsNatural (sub32 drain (over_the_limit adjusted drain max), adjusted)
adjusted-IsNatural left available drain adjust max min l a d y m v dm vm =
    let reduced = sub32 adjust (over_the_limit adjust drain max) in
    let r = reduced-IsCount drain adjust max d y m dm in
    let (low, high, fits) = reduced_fits drain adjust max d y m in
    let (up, within) = adjusted_bounds left available reduced max min l a r m v vm (omega arith) in
    let adjusted = add32 reduced (
      min_value (max_value (pos 0) (sub32 available reduced))
        (max_value (pos 0) (sub32 min (add32 left (min_value available reduced))))) in
    (drained_nonneg drain adjusted max d m up within, up)

adjust-IsNatural :
    (drain_rs adjust_rs : Option ReplicaSet) (drain adjust max min : ℤ)
    → IsCounted drain_rs
    → IsCounted adjust_rs
    → IsCount drain
    → IsCount adjust
    → IsCount max
    → IsCount min
    → pos_part drain ≤ pos_part max
    → pos_part min ≤ pos_part max
    → IsNatural (adjust_replica_within_limits drain_rs adjust_rs drain adjust max min)
unfolding adjust_replica_within_limits available_of_drain
adjust-IsNatural drain_rs none drain adjust max min dc ac d a m v dm vm = (d.0, a.0)
adjust-IsNatural none (some r) drain adjust max min dc ac d a m v dm vm =
    adjusted-IsNatural (pos 0) r.available_replicas drain adjust max min (omega arith) ac.1 d a m v
      dm vm
adjust-IsNatural (some s) (some r) drain adjust max min dc ac d a m v dm vm =
    let left = min_value s.available_replicas drain in
    let left_ok : IsCount left = ground arith in
    rw (add32-zero left left_ok)
      (adjusted-IsNatural left r.available_replicas drain adjust max min left_ok ac.1 d a m v dm vm)

-- A count after scaling up is the one before, or less than what is desired.
abbrev pub IsReached : (current desired after : ℤ) → Type 0
IsReached current desired after =
    (pos_part after ≤ pos_part current) ⊎ (pos_part after ≤ pos_part desired)

-- What is left of the drained set fits the limit.
drain_fits :
    (rs : Option ReplicaSet) (other total desired drain max min : ℤ)
    → IsCounted rs
    → IsCount other
    → IsCount desired
    → IsCount drain
    → IsCount max
    → IsCount min
    → neg_part total ≡ 0
    → pos_part total ≡ pos_part (replicas_or_zero rs) + pos_part other
    → pos_part desired ≤ pos_part max
    → pos_part min ≤ pos_part max
    → IsReached (replicas_or_zero rs) desired drain
    → let left = calculate_scale_down_replica_count rs desired (sub32 total min) drain in
      IsCount left × (pos_part left ≤ pos_part max)
unfolding calculate_scale_down_replica_count
drain_fits none other total desired drain max min rc o d x m v up eq dm vm reached = ground arith
drain_fits (some rs) other total desired drain max min rc o d x m v up eq dm vm reached =
    let count = sub32-near total min (ground arith) (ground arith) in
    let rest = sub32-near rs.replicas (sub32 total min) (ground arith) (ground arith) in
    ground arith

-- Ignoring availability all replicas count for scaling down.
for_scale_down-ignore :
    (rs : Option ReplicaSet) → get_replicas_for_scale_down rs true ≡ replicas_or_zero rs
unfolding get_replicas_for_scale_down
for_scale_down-ignore none = refl
for_scale_down-ignore (some rs) = ground arith

-- The counts after scaling down are no less than zero.
pub scaled_down-IsNatural :
    (new_rs stable_rs : Option ReplicaSet) (own : Bool)
    (desired_new desired_stable max min new stable : ℤ)
    → IsCounted new_rs
    → IsCounted stable_rs
    → IsCount desired_new
    → IsCount desired_stable
    → IsCount new
    → IsCount stable
    → IsCount max
    → IsCount min
    → pos_part desired_new ≤ pos_part max
    → pos_part desired_stable ≤ pos_part max
    → pos_part min ≤ pos_part max
    → IsReached (replicas_or_zero new_rs) desired_new new
    → (own ≡ true → IsReached (replicas_or_zero stable_rs) desired_stable stable)
    → IsNatural (scaled_down new_rs stable_rs own desired_new desired_stable max min new stable)
unfolding scaled_down
scaled_down-IsNatural new_rs stable_rs own desired_new desired_stable max min new stable n_ok s_ok
      dn ds nc sc mc vc dnm dsm vm reach_new reach_stable =
    let increasing = not (is_some new_rs) || leb_ℤ (replicas_or_zero new_rs) desired_new in
    let a = get_replicas_for_scale_down new_rs (not increasing) in
    let b = get_replicas_for_scale_down stable_rs increasing in
    let a_ok = get_replicas_for_scale_down-IsCount new_rs (not increasing) n_ok in
    let b_ok = get_replicas_for_scale_down-IsCount stable_rs increasing s_ok in
    let sum = add32-near a b (omega arith) (omega arith) in
    let count = sub32 (add32 a b) min in
    let up : neg_part (add32 a b) ≡ 0 = omega arith in
    let left = calculate_scale_down_replica_count new_rs desired_new count new in
    let left' = calculate_scale_down_replica_count stable_rs desired_stable count stable in
    let swapped = adjust_replica_within_limits stable_rs new_rs left' new max min in
    chosen IsNatural (leb_ℤ (add32 a b) min) increasing own (new, stable)
      (adjust_replica_within_limits new_rs stable_rs left stable max min) (swapped.1, swapped.0)
      (nc.0, sc.0)
      (λ more down.
        let ea =
          ap (λ i. pos_part (get_replicas_for_scale_down new_rs (not i))) down
          ∙ ap pos_part (for_scale_down-ignore new_rs) in
        let (ok, fits) =
          drain_fits new_rs b (add32 a b) desired_new new max min n_ok b_ok dn nc mc vc up
            (omega arith) dnm vm reach_new in
        adjust-IsNatural new_rs stable_rs left stable max min n_ok s_ok ok sc mc vc fits vm)
      (λ more rising yes.
        let eb =
          ap (λ i. pos_part (get_replicas_for_scale_down stable_rs i)) rising
          ∙ ap pos_part (for_scale_down-ignore stable_rs) in
        let (ok, fits) =
          drain_fits stable_rs a (add32 a b) desired_stable stable max min s_ok a_ok ds sc mc vc up
            (omega arith) dsm vm (reach_stable yes) in
        let (x, y) =
          adjust-IsNatural stable_rs new_rs left' new max min s_ok n_ok ok nc mc vc fits vm in
        (y, x))
