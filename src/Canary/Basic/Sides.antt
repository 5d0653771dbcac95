-- ===== src/Canary/Basic/Sides.antt =====
-- What scaling down leaves available, of the canary and the stable ReplicaSet.
use intuit_argo_rollouts_dem.Prelude.{
  ℕ, ◌+◌, ◌≤◌, ◌≡◌, refl, ap, true, false, not, ◌||◌, some, ℤ, pos_part, neg_part, add32, sub32,
  leb_ℤ, arith,
}
use intuit_argo_rollouts_dem.Canary.Types.{ReplicaSet}
use intuit_argo_rollouts_dem.Canary.ReplicaSets.{get_replicas_for_scale_down}
use intuit_argo_rollouts_dem.Canary.Basic.{
  min_value, calculate_scale_down_replica_count, adjust_replica_within_limits, scaled_down,
}
use intuit_argo_rollouts_dem.Canary.Basic.Surge.{IsCount, add32-near, sub32-near, drain-le}
use intuit_argo_rollouts_dem.Canary.Basic.Within.{
  IsCounted, chosen, get_replicas_for_scale_down-IsCount,
}
use intuit_argo_rollouts_dem.Canary.Basic.Availability.{IsEnough, adjust-IsEnough, drain-IsEnough}

-- The replicas that count for scaling down: all, or those that are available and stay.
for_scale_down :
    (rs : ReplicaSet)
    → (get_replicas_for_scale_down (some rs) true ≡ rs.replicas)
      × (get_replicas_for_scale_down (some rs) false ≡ min_value rs.available_replicas rs.replicas)
unfolding get_replicas_for_scale_down
for_scale_down rs = (ground arith, refl)

-- One side of the scaling down, the drained set first.
side-IsEnough :
    (k : ℕ) (d r : ReplicaSet) (desired drain adjust max min total : ℤ)
    → IsCounted (some d)
    → IsCounted (some r)
    → IsCount desired
    → IsCount drain
    → IsCount adjust
    → IsCount max
    → IsCount min
    → neg_part total ≡ 0
    → pos_part total ≡ pos_part d.replicas + pos_part (min_value r.available_replicas r.replicas)
    → pos_part min ≤ pos_part total
    → pos_part d.replicas ≤ pos_part drain
    → pos_part r.replicas ≤ pos_part adjust
    → k ≤ pos_part min
    → k ≤ pos_part max
    → IsEnough k
        (min_value d.available_replicas d.replicas)
        (min_value r.available_replicas r.replicas)
    → let counts =
        adjust_replica_within_limits
          (some d)
          (some r)
          (calculate_scale_down_replica_count (some d) desired (sub32 total min) drain)
          adjust
          max
          min in
      IsEnough k (min_value d.available_replicas counts.0) (min_value r.available_replicas counts.1)
side-IsEnough k d r desired drain adjust max min total d_ok r_ok dc xc yc mc nc up eq more led ler
      km kx enough =
    let other = min_value r.available_replicas r.replicas in
    let left =
      drain-IsEnough k d other total desired drain min d_ok.0 d_ok.1 (ground arith) dc xc nc up eq
        led km enough in
    let count = sub32-near total min (ground arith) (ground arith) in
    let drained =
      drain-le (some d) desired (sub32 total min) drain d_ok.0 dc xc led (ground arith)
        (ground arith) in
    let drained_count =
      calculate_scale_down_replica_count (some d) desired (sub32 total min) drain in
    adjust-IsEnough k d r drained_count adjust max min d_ok.1 r_ok.1 drained.0 yc mc nc km kx
      (ground arith)

-- For a canary and a stable set that are there, at least k replicas stay available, where k is at most
-- the minimum that the rollout is to have available, at most the number of replicas that are available
-- and wanted before, and at most the surge limit.
pub scaled_down-IsEnough :
    (k : ℕ) (n s : ReplicaSet) (desired_new desired_stable max min new stable : ℤ)
    → IsCounted (some n)
    → IsCounted (some s)
    → IsCount desired_new
    → IsCount desired_stable
    → IsCount new
    → IsCount stable
    → IsCount max
    → IsCount min
    → pos_part n.replicas ≤ pos_part new
    → pos_part s.replicas ≤ pos_part stable
    → k ≤ pos_part min
    → k ≤ pos_part max
    → IsEnough k
        (min_value n.available_replicas n.replicas)
        (min_value s.available_replicas s.replicas)
    → let counts =
        scaled_down (some n) (some s) true desired_new desired_stable max min new stable in
      IsEnough k (min_value n.available_replicas counts.0) (min_value s.available_replicas counts.1)
unfolding scaled_down
scaled_down-IsEnough k n s desired_new desired_stable max min new stable n_ok s_ok dn ds nc sc mc vc
      len les km kx enough =
    let increasing = not true || leb_ℤ n.replicas desired_new in
    let a = get_replicas_for_scale_down (some n) (not increasing) in
    let b = get_replicas_for_scale_down (some s) increasing in
    let count = sub32 (add32 a b) min in
    let a_ok = get_replicas_for_scale_down-IsCount (some n) (not increasing) n_ok in
    let b_ok = get_replicas_for_scale_down-IsCount (some s) increasing s_ok in
    let sum = add32-near a b (omega arith) (omega arith) in
    let up : neg_part (add32 a b) ≡ 0 = omega arith in
    let both : pos_part (add32 a b) ≡ pos_part a + pos_part b = omega arith in
    let swapped =
      adjust_replica_within_limits (some s) (some n)
        (calculate_scale_down_replica_count (some s) desired_stable count stable) new max min in
    chosen
      (λ c. IsEnough k (min_value n.available_replicas c.0) (min_value s.available_replicas c.1))
      (leb_ℤ (add32 a b) min) increasing true (new, stable)
      (adjust_replica_within_limits (some n) (some s)
        (calculate_scale_down_replica_count (some n) desired_new count new) stable max min)
      (swapped.1, swapped.0) (ground arith)
      (λ more down.
        let ea = ap (λ i. pos_part (get_replicas_for_scale_down (some n) (not i))) down in
        let eb = ap (λ i. pos_part (get_replicas_for_scale_down (some s) i)) down in
        let na = ap pos_part (for_scale_down n).0 in
        let sb = ap pos_part (for_scale_down s).1 in
        side-IsEnough k n s desired_new new stable max min (add32 a b) n_ok s_ok dn nc sc mc vc up
          (omega arith) (ground arith) len les km kx enough)
      (λ more rising _.
        let ea = ap (λ i. pos_part (get_replicas_for_scale_down (some n) (not i))) rising in
        let eb = ap (λ i. pos_part (get_replicas_for_scale_down (some s) i)) rising in
        let na = ap pos_part (for_scale_down n).1 in
        let sb = ap pos_part (for_scale_down s).0 in
        let fits =
          side-IsEnough k s n desired_stable stable new max min (add32 a b) s_ok n_ok ds sc nc mc vc
            up (omega arith) (ground arith) les len km kx (omega arith) in
        omega arith)
