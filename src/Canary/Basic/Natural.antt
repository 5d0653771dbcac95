-- ===== src/Canary/Basic/Natural.antt =====
-- The counts of the whole basic canary calculation are not negative.
use intuit_argo_rollouts_dem.Prelude.{
  ℕ, ◌+◌, ◌-◌, ◌*◌, ◌<◌, ◌≤◌, ◌≡◌, Bool, true, Option, none, some, List, ℤ, pos, pos_part, neg_part,
  sub32, Bool-cases, inl, inr, add32-pos, sub32-pos, ltb_ℤ, arith, if◌then◌else◌,
}
use intuit_argo_rollouts_dem.Rollout.{Rollout}
use intuit_argo_rollouts_dem.Rollout.Defaults.{get_replicas_or_default, max_traffic_weight}
use intuit_argo_rollouts_dem.Canary.Floats.{Float64, IsExact}
use intuit_argo_rollouts_dem.Canary.Types.{ReplicaSet}
use intuit_argo_rollouts_dem.Canary.Steps.{get_canary_replicas_or_weight}
use intuit_argo_rollouts_dem.Canary.ReplicaSets.{
  get_replica_count_for_replica_sets, check_stable_rs_exists,
}
use intuit_argo_rollouts_dem.Canary.Fenceposts.{OfPercent, max_surge, max_unavailable}
use intuit_argo_rollouts_dem.Canary.Approximate.Split.{approximate_counts-IsSplit}
use intuit_argo_rollouts_dem.Canary.Basic.{
  replicas_or_zero, scale_up, scale_up_if, scaled_up, counts_within,
  calculate_replica_counts_for_basic_canary,
}
use intuit_argo_rollouts_dem.Canary.Basic.Surge.{
  IsCount, IsNear, sub32-near, add32-near, stable_part, scale_up_if-budget, scaled_up-budget,
}
use intuit_argo_rollouts_dem.Canary.Basic.Within.{IsCounted}
use intuit_argo_rollouts_dem.Canary.Basic.Total.{total_count, total_eq, max_unavailable_le}
use intuit_argo_rollouts_dem.Canary.Basic.Signs.{IsNatural, IsReached, scaled_down-IsNatural}

scale_up_if-IsReached :
    (rs : Option ReplicaSet) (desired surplus : ℤ)
    → IsCount (replicas_or_zero rs)
    → IsCount desired
    → IsNear surplus
    → IsReached
        (replicas_or_zero rs)
        desired
        (scale_up_if rs true desired (replicas_or_zero rs) surplus).0
unfolding scale_up_if scale_up
scale_up_if-IsReached none desired surplus c d near = ground arith
scale_up_if-IsReached (some rs) desired surplus c d near =
    let sum = add32-near rs.replicas surplus (ground arith) near in ground arith

scaled_up-IsReached :
    (new_rs stable_rs : Option ReplicaSet) (own : Bool) (desired_new desired_stable surplus : ℤ)
    → IsCount (replicas_or_zero new_rs)
    → IsCount (replicas_or_zero stable_rs)
    → IsCount desired_new
    → IsCount desired_stable
    → IsNear surplus
    → let after = scaled_up new_rs stable_rs own desired_new desired_stable surplus in
      IsReached (replicas_or_zero new_rs) desired_new after.0
      × (own ≡ true → IsReached (replicas_or_zero stable_rs) desired_stable after.1)
unfolding scaled_up
scaled_up-IsReached new_rs stable_rs own desired_new desired_stable surplus n s dn ds near =
    let (_, _, _, rest) = scale_up_if-budget stable_rs own desired_stable surplus s ds near in
    let left = (scale_up_if stable_rs own desired_stable (stable_part stable_rs own) surplus).1 in
    (
      scale_up_if-IsReached new_rs desired_new left n dn rest,
      λ yes. rw yes (scale_up_if-IsReached stable_rs desired_stable surplus s ds near),
    )

module _ (new_rs stable_rs : Option ReplicaSet) (old_rss : List (Option ReplicaSet)) (own : Bool)
    (new_ok : IsCounted new_rs) (stable_ok : IsCounted stable_rs)
    (old_ok : IsCount (get_replica_count_for_replica_sets old_rss)) where
  counts_within-IsNatural :
      (desired_new desired_stable max min : ℤ)
      → IsCount desired_new
      → IsCount desired_stable
      → IsCount max
      → IsCount min
      → pos_part desired_new ≤ pos_part max
      → pos_part desired_stable ≤ pos_part max
      → pos_part min ≤ pos_part max
      → IsNatural (counts_within new_rs stable_rs old_rss own desired_new desired_stable max min)
  unfolding counts_within
  counts_within-IsNatural desired_new desired_stable max min dn ds mc vc dnm dsm vm =
      let sum = total_eq new_rs stable_rs old_rss own new_ok stable_ok old_ok in
      let total = total_count new_rs stable_rs old_rss own new_ok stable_ok old_ok in
      let part : IsCount (stable_part stable_rs own) = ground arith in
      let near : IsNear (sub32 max total) =
        let difference = sub32-near max total (omega arith) (omega arith) in omega arith in
      let (nc, sc, _, _, _) =
        scaled_up-budget new_rs stable_rs own desired_new desired_stable (sub32 max total) new_ok.0
          stable_ok.0 dn ds near in
      let (rn, rs) =
        scaled_up-IsReached new_rs stable_rs own desired_new desired_stable (sub32 max total)
          new_ok.0 stable_ok.0 dn ds near in
      let after = scaled_up new_rs stable_rs own desired_new desired_stable (sub32 max total) in
      let down =
        scaled_down-IsNatural new_rs stable_rs own desired_new desired_stable max min after.0
          after.1 new_ok stable_ok dn ds nc sc mc vc dnm dsm vm rn rs in
      elim (Bool-cases (ltb_ℤ (pos 0) (get_replica_count_for_replica_sets old_rss))) [
        | inl more ↦ rw more (nc.0, sc.0)
        | inr no_old ↦ rw no_old down
      ]

module _ (fl : Float64) (exact : IsExact fl) (of_percent : OfPercent) where
  -- Neither count is negative, with or without a canary, a stable and old ReplicaSets. The counts
  -- are in a range in which int32 does not wrap, and the weight is at most the maximum.
  pub calculate_replica_counts_for_basic_canary-IsNatural :
      (ro : Rollout) (new_rs stable_rs : Option ReplicaSet) (old_rss : List (Option ReplicaSet))
      (s w m surge u : ℕ)
      → get_replicas_or_default ro.spec.replicas ≡ pos s
      → (get_canary_replicas_or_weight ro).1 ≡ pos w
      → max_traffic_weight ro ≡ pos m
      → max_surge of_percent ro ≡ pos surge
      → max_unavailable of_percent ro ≡ pos u
      → w ≤ m
      → 0 < m
      → m ≤ 2147483647
      → s * w ≤ 2147483647
      → s + surge ≤ 134217727
      → IsCounted new_rs
      → IsCounted stable_rs
      → IsCount (get_replica_count_for_replica_sets old_rss)
      → let counts =
          calculate_replica_counts_for_basic_canary fl of_percent ro new_rs stable_rs old_rss in
        (neg_part counts.0 ≡ 0) × (neg_part counts.1 ≡ 0)
  unfolding calculate_replica_counts_for_basic_canary
  calculate_replica_counts_for_basic_canary-IsNatural ro new_rs stable_rs old_rss s w m surge u es
        ew em eg eu h l mm sw big n st o =
      let least = max_unavailable_le of_percent ro s u es eu in
      let (c, r, ec, er, split) =
        approximate_counts-IsSplit fl exact s w m surge h l mm (omega arith) sw in
      let own = check_stable_rs_exists new_rs stable_rs in
      rw
        (
          es,
          ew,
          em,
          eg,
          eu,
          ec,
          er,
          add32-pos s surge (omega arith),
          sub32-pos s u least (omega arith),
        )
        (counts_within-IsNatural new_rs stable_rs old_rss own n st o (if own then pos c else pos s)
          (if own then pos r else pos 0) (pos (s + surge)) (pos (s - u)) (ground arith)
          (ground arith) (omega arith) (omega arith) (ground arith) (ground arith) (omega arith))
