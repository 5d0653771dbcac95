-- ===== src/Canary/Basic/Total.antt =====
-- CalculateReplicaCountsForBasicCanary as a whole: the old ReplicaSets counted in.
use intuit_argo_rollouts_dem.Prelude.{
  ℕ, ◌+◌, ◌-◌, ◌*◌, ◌<◌, ◌≤◌, ◌≡◌, refl, Bool, true, false, Option, none, some, List, [], ◌∷◌, ◌++◌,
  ℤ, pos, pos_part, neg_part, add32, sub32, Bool-cases, inl, inr, add32-pos, sub32-pos, ltb_ℤ,
  arith, if◌then◌else◌,
}
use intuit_argo_rollouts_dem.Rollout.{Rollout}
use intuit_argo_rollouts_dem.Rollout.Defaults.{get_replicas_or_default, max_traffic_weight}
use intuit_argo_rollouts_dem.Canary.Floats.{Float64, IsExact}
use intuit_argo_rollouts_dem.Canary.Steps.{get_canary_replicas_or_weight}
use intuit_argo_rollouts_dem.Canary.Fenceposts.{OfPercent, max_surge, max_unavailable}
use intuit_argo_rollouts_dem.Canary.Approximate.Split.{approximate_counts-IsSplit}
use intuit_argo_rollouts_dem.Canary.Types.{ReplicaSet}
use intuit_argo_rollouts_dem.Canary.ReplicaSets.{
  sum_of, get_replica_count_for_replica_sets, check_stable_rs_exists,
}
use intuit_argo_rollouts_dem.Canary.Approximate.{when}
use intuit_argo_rollouts_dem.Canary.Basic.{
  replicas_or_zero, scaled_up, counts_within, calculate_replica_counts_for_basic_canary,
}
use intuit_argo_rollouts_dem.Canary.Basic.Surge.{
  IsCount, IsNear, add32-near, sub32-near, stable_part, scaled_up-budget,
}
use intuit_argo_rollouts_dem.Canary.Basic.Within.{IsCounted, scaled_down-IsWithin}

sum_of-++ :
    (f : ReplicaSet → ℤ) (t : ℤ) (xs ys : List (Option ReplicaSet))
    → sum_of f t (xs ++ ys) ≡ sum_of f (sum_of f t xs) ys
sum_of-++ f t [] ys = refl
sum_of-++ f t (none ∷ xs) ys = sum_of-++ f t xs ys
sum_of-++ f t (some rs ∷ xs) ys = sum_of-++ f (add32 t (f rs)) xs ys

abbrev replicas_field : ReplicaSet → ℤ
replicas_field rs = rs.replicas

-- One more set in the sum.
sum_of-one :
    (rs : Option ReplicaSet) (t : ℤ)
    → IsNear t
    → neg_part t ≡ 0
    → IsCount (replicas_or_zero rs)
    → (neg_part (sum_of replicas_field t (rs ∷ [])) ≡ 0)
      × (pos_part (sum_of replicas_field t (rs ∷ [])) ≡ pos_part t + pos_part (replicas_or_zero rs))
sum_of-one none t near up r = omega arith
sum_of-one (some rs) t near up r =
    let sum = add32-near t rs.replicas near (ground arith) in ground arith

sum_of-when :
    (rs : Option ReplicaSet) (own : Bool) (t : ℤ)
    → IsNear t
    → neg_part t ≡ 0
    → IsCount (replicas_or_zero rs)
    → (neg_part (sum_of replicas_field t (when own (rs ∷ []))) ≡ 0)
      × (pos_part (sum_of replicas_field t (when own (rs ∷ [])))
          ≡ pos_part t + pos_part (stable_part rs own))
sum_of-when rs true t near up r = sum_of-one rs t near up r
sum_of-when rs false t near up r = omega arith

abbrev with_current :
    (new_rs stable_rs : Option ReplicaSet)
    → List (Option ReplicaSet)
    → Bool
    → List (Option ReplicaSet)
with_current new_rs stable_rs old_rss scale_stable =
    (old_rss ++ (new_rs ∷ [])) ++ when scale_stable (stable_rs ∷ [])

module _ (new_rs stable_rs : Option ReplicaSet) (old_rss : List (Option ReplicaSet))
    (scale_stable : Bool) (new_ok : IsCounted new_rs) (stable_ok : IsCounted stable_rs)
    (old_ok : IsCount (get_replica_count_for_replica_sets old_rss)) where
  abbrev old_count : ℤ
  old_count = get_replica_count_for_replica_sets old_rss

  abbrev pub total_count : ℤ
  total_count =
      get_replica_count_for_replica_sets (with_current new_rs stable_rs old_rss scale_stable)

  -- The sum of all is that of the old sets, of the canary and of the stable set of its own.
  pub total_eq :
      (neg_part total_count ≡ 0)
      × (pos_part total_count
          ≡ pos_part old_count
            + pos_part (replicas_or_zero new_rs)
            + pos_part (stable_part stable_rs scale_stable))
  unfolding get_replica_count_for_replica_sets
  total_eq =
      let old = sum_of replicas_field (pos 0) old_rss in
      let middle = sum_of replicas_field old (new_rs ∷ []) in
      let first = sum_of-one new_rs old (omega arith) (omega arith) new_ok.0 in
      let second =
        sum_of-when stable_rs scale_stable middle (omega arith) (omega arith) stable_ok.0 in
      rw
        (
          sum_of-++ replicas_field (pos 0) (old_rss ++ (new_rs ∷ []))
              (when scale_stable (stable_rs ∷ [])),
          sum_of-++ replicas_field (pos 0) old_rss (new_rs ∷ []),
        )
        (omega arith)

  old_is_zero : ltb_ℤ (pos 0) old_count ≡ false → pos_part old_count ≡ 0
  old_is_zero e = ground arith

  -- With the old sets: at most what there is already, or what the surge allows, whichever is more.
  counts_within-IsWithin :
      (desired_new desired_stable max min : ℤ) (k : ℕ)
      → IsCount desired_new
      → IsCount desired_stable
      → IsCount max
      → IsCount min
      → pos_part max ≤ k
      → pos_part old_count
          + pos_part (replicas_or_zero new_rs)
          + pos_part (stable_part stable_rs scale_stable)
        ≤ k
      → let counts =
          counts_within new_rs stable_rs old_rss scale_stable desired_new desired_stable max min in
        pos_part old_count + pos_part counts.0 + pos_part counts.1
        ≤ k + neg_part counts.0 + neg_part counts.1
  unfolding counts_within
  counts_within-IsWithin desired_new desired_stable max min k dn ds cm cmin le now =
      let surplus = sub32 max total_count in
      let stable_near : IsCount (stable_part stable_rs scale_stable) = ground arith in
      let difference =
        sub32-near max total_count (omega (arith, total_eq)) (omega (arith, total_eq)) in
      let budget =
        scaled_up-budget new_rs stable_rs scale_stable desired_new desired_stable surplus new_ok.0
          stable_ok.0 dn ds (omega (arith, total_eq)) in
      let after = scaled_up new_rs stable_rs scale_stable desired_new desired_stable surplus in
      let sum : pos_part old_count + pos_part after.0 + pos_part after.1 ≤ k =
        omega (arith, total_eq) in
      elim (Bool-cases (ltb_ℤ (pos 0) old_count)) [
        | inl more ↦ rw more (omega arith)
        | inr none_old ↦
            let (new_ok', stable_ok', len, les, _) = budget in
            let fits =
              scaled_down-IsWithin new_rs stable_rs desired_new desired_stable max min after.0
                after.1 k new_ok stable_ok dn ds cm cmin new_ok' stable_ok' len le (omega arith)
                scale_stable les in
            rw none_old (omega (arith, old_is_zero none_old))
      ]

pub max_unavailable_le :
    (of_percent : OfPercent) (ro : Rollout) (s u : ℕ)
    → get_replicas_or_default ro.spec.replicas ≡ pos s
    → max_unavailable of_percent ro ≡ pos u
    → u ≤ s
unfolding max_unavailable
max_unavailable_le of_percent ro s u es eu = ground arith

module _ (fl : Float64) (exact : IsExact fl) (of_percent : OfPercent) where
  -- The canary, the stable and the old ReplicaSets are asked for at most k replicas in all, where k
  -- is at least the replicas of the spec with the surge, and at least what the sets have now. So a
  -- calculation never exceeds the surge limit further than the sets do already. The counts are in a
  -- range in which int32 does not wrap, and the weight is at most the maximum.
  pub calculate_replica_counts_for_basic_canary-IsWithin :
      (ro : Rollout) (new_rs stable_rs : Option ReplicaSet) (old_rss : List (Option ReplicaSet))
      (s w m surge u k : ℕ)
      → get_replicas_or_default ro.spec.replicas ≡ pos s
      → (get_canary_replicas_or_weight ro).1 ≡ pos w
      → max_traffic_weight ro ≡ pos m
      → max_surge of_percent ro ≡ pos surge
      → max_unavailable of_percent ro ≡ pos u
      → w ≤ m
      → 0 < m
      → m ≤ 2147483647
      → s * w ≤ 2147483647
      → s + surge ≤ 134217727
      → IsCounted new_rs
      → IsCounted stable_rs
      → IsCount (get_replica_count_for_replica_sets old_rss)
      → s + surge ≤ k
      → pos_part (get_replica_count_for_replica_sets old_rss)
          + pos_part (replicas_or_zero new_rs)
          + pos_part (stable_part stable_rs (check_stable_rs_exists new_rs stable_rs))
        ≤ k
      → let counts =
          calculate_replica_counts_for_basic_canary fl of_percent ro new_rs stable_rs old_rss in
        pos_part (get_replica_count_for_replica_sets old_rss)
          + pos_part counts.0
          + pos_part counts.1
        ≤ k + neg_part counts.0 + neg_part counts.1
  unfolding calculate_replica_counts_for_basic_canary
  calculate_replica_counts_for_basic_canary-IsWithin ro new_rs stable_rs old_rss s w m surge u k es
        ew em eg eu h l mm sw big n st o le now =
      let least = max_unavailable_le of_percent ro s u es eu in
      let (c, r, ec, er, split) =
        approximate_counts-IsSplit fl exact s w m surge h l mm (omega arith) sw in
      let own = check_stable_rs_exists new_rs stable_rs in
      rw
        (
          es,
          ew,
          em,
          eg,
          eu,
          ec,
          er,
          add32-pos s surge (omega arith),
          sub32-pos s u least (omega arith),
        )
        (counts_within-IsWithin new_rs stable_rs old_rss own n st o (if own then pos c else pos s)
          (if own then pos r else pos 0) (pos (s + surge)) (pos (s - u)) k (ground arith)
          (ground arith) (omega arith) (omega arith) le now)
