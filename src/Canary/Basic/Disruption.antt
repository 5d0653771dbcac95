-- ===== src/Canary/Basic/Disruption.antt =====
-- How many available replicas the basic canary calculation keeps.
use intuit_argo_rollouts_dem.Prelude.{
  ℕ, ◌+◌, ◌-◌, ◌*◌, ◌<◌, ◌≤◌, ◌≤ℤ◌, ◌≡◌, true, Option, some, List, ℤ, pos, pos_part, sub32,
  Bool-cases, inl, inr, add32-pos, sub32-pos, ltb_ℤ, arith,
}
use intuit_argo_rollouts_dem.Rollout.{Rollout}
use intuit_argo_rollouts_dem.Rollout.Defaults.{get_replicas_or_default, max_traffic_weight}
use intuit_argo_rollouts_dem.Canary.Floats.{Float64, IsExact}
use intuit_argo_rollouts_dem.Canary.Types.{ReplicaSet}
use intuit_argo_rollouts_dem.Canary.Steps.{get_canary_replicas_or_weight}
use intuit_argo_rollouts_dem.Canary.ReplicaSets.{
  get_replica_count_for_replica_sets, check_stable_rs_exists,
}
use intuit_argo_rollouts_dem.Canary.Fenceposts.{OfPercent, max_surge, max_unavailable}
use intuit_argo_rollouts_dem.Canary.Approximate.Split.{approximate_counts-IsSplit}
use intuit_argo_rollouts_dem.Canary.Basic.{
  min_value, scaled_up, counts_within, calculate_replica_counts_for_basic_canary,
}
use intuit_argo_rollouts_dem.Canary.Basic.Surge.{IsCount, sub32-near, scaled_up-budget}
use intuit_argo_rollouts_dem.Canary.Basic.Within.{IsCounted}
use intuit_argo_rollouts_dem.Canary.Basic.Total.{total_count, total_eq, max_unavailable_le}
use intuit_argo_rollouts_dem.Canary.Basic.Availability.{IsEnough}
use intuit_argo_rollouts_dem.Canary.Basic.Sides.{scaled_down-IsEnough}

-- More replicas keep no fewer available.
IsEnough-mono :
    (k : ℕ) (a b p q x y : ℤ)
    → p ≤ℤ x
    → q ≤ℤ y
    → IsEnough k (min_value a p) (min_value b q)
    → IsEnough k (min_value a x) (min_value b y)
IsEnough-mono k a b p q x y h l e = ground arith

module _ (n s : ReplicaSet) (old_rss : List (Option ReplicaSet)) (new_ok : IsCounted (some n))
    (stable_ok : IsCounted (some s))
    (old_ok : IsCount (get_replica_count_for_replica_sets old_rss)) where
  counts_within-IsEnough :
      (k : ℕ) (desired_new desired_stable max min : ℤ)
      → IsCount desired_new
      → IsCount desired_stable
      → IsCount max
      → IsCount min
      → k ≤ pos_part min
      → k ≤ pos_part max
      → IsEnough k
          (min_value n.available_replicas n.replicas)
          (min_value s.available_replicas s.replicas)
      → let counts =
          counts_within (some n) (some s) old_rss true desired_new desired_stable max min in
        IsEnough k
          (min_value n.available_replicas counts.0)
          (min_value s.available_replicas counts.1)
  unfolding counts_within
  counts_within-IsEnough k desired_new desired_stable max min dn ds mc vc km kx enough =
      let sum = total_eq (some n) (some s) old_rss true new_ok stable_ok old_ok in
      let total = total_count (some n) (some s) old_rss true new_ok stable_ok old_ok in
      let difference = sub32-near max total (omega arith) (omega arith) in
      let (nc, sc, len, les, _) =
        scaled_up-budget (some n) (some s) true desired_new desired_stable (sub32 max total)
          new_ok.0 stable_ok.0 dn ds (omega arith) in
      let after = scaled_up (some n) (some s) true desired_new desired_stable (sub32 max total) in
      let kept =
        scaled_down-IsEnough k n s desired_new desired_stable max min after.0 after.1 new_ok
          stable_ok dn ds nc sc mc vc len les km kx enough in
      elim (Bool-cases (ltb_ℤ (pos 0) (get_replica_count_for_replica_sets old_rss))) [
        | inl more ↦ rw more (
            IsEnough-mono k n.available_replicas s.available_replicas n.replicas s.replicas after.0
              after.1 (omega arith) (omega arith) enough)
        | inr no_old ↦ rw no_old kept
      ]

module _ (fl : Float64) (exact : IsExact fl) (of_percent : OfPercent) where
  -- With a canary and a stable ReplicaSet of different names, at least k of their replicas are
  -- available and wanted after the calculation, where k is at most the replicas of the spec less
  -- those that may be unavailable, and at most the number of replicas that are available and wanted
  -- before. So a calculation never goes below the minimum, or further below it than it is. The
  -- counts are in a range in which int32 does not wrap, and the weight is at most the maximum.
  pub calculate_replica_counts_for_basic_canary-IsEnough :
      (ro : Rollout) (n s : ReplicaSet) (old_rss : List (Option ReplicaSet))
      (replicas w m surge u k : ℕ)
      → get_replicas_or_default ro.spec.replicas ≡ pos replicas
      → (get_canary_replicas_or_weight ro).1 ≡ pos w
      → max_traffic_weight ro ≡ pos m
      → max_surge of_percent ro ≡ pos surge
      → max_unavailable of_percent ro ≡ pos u
      → w ≤ m
      → 0 < m
      → m ≤ 2147483647
      → replicas * w ≤ 2147483647
      → replicas + surge ≤ 134217727
      → IsCounted (some n)
      → IsCounted (some s)
      → IsCount (get_replica_count_for_replica_sets old_rss)
      → check_stable_rs_exists (some n) (some s) ≡ true
      → k ≤ replicas - u
      → IsEnough k
          (min_value n.available_replicas n.replicas)
          (min_value s.available_replicas s.replicas)
      → let counts =
          calculate_replica_counts_for_basic_canary fl of_percent ro (some n) (some s) old_rss in
        IsEnough k
          (min_value n.available_replicas counts.0)
          (min_value s.available_replicas counts.1)
  unfolding calculate_replica_counts_for_basic_canary
  calculate_replica_counts_for_basic_canary-IsEnough ro n s old_rss replicas w m surge u k es ew em
        eg eu h l mm sw big n_ok s_ok o own km enough =
      let least = max_unavailable_le of_percent ro replicas u es eu in
      let (c, r, ec, er, split) =
        approximate_counts-IsSplit fl exact replicas w m surge h l mm (omega arith) sw in
      rw
        (
          es,
          ew,
          em,
          eg,
          eu,
          ec,
          er,
          own,
          add32-pos replicas surge (omega arith),
          sub32-pos replicas u least (omega arith),
        )
        (counts_within-IsEnough n s old_rss n_ok s_ok o k (pos c) (pos r) (pos (replicas + surge))
          (pos (replicas - u)) (omega arith) (omega arith) (omega arith) (omega arith) km
          (omega arith) enough)
