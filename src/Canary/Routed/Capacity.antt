-- ===== src/Canary/Routed/Capacity.antt =====
-- With dynamic stable scaling the two ReplicaSets have the capacity for the traffic they are sent.
use intuit_argo_rollouts_dem.Prelude.{
  ℕ, ◌+◌, ◌-◌, ◌*◌, ◌/◌, ◌≤◌, ◌<◌, ◌≡◌, sym, Bool, true, Option, none, some, ℤ, pos, pos_part,
  neg_part, ◌≤ℤ◌, sub32, sub32-pos, arith,
}
use native.Mathlib.Nat.{mul_comm}
use intuit_argo_rollouts_dem.Rollout.{Rollout}
use intuit_argo_rollouts_dem.Rollout.Defaults.{get_replicas_or_default, max_traffic_weight}
use intuit_argo_rollouts_dem.Canary.Floats.{Float64, IsExact}
use intuit_argo_rollouts_dem.Canary.Types.{TrafficWeights}
use intuit_argo_rollouts_dem.Canary.Steps.{get_canary_replicas_or_weight}
use intuit_argo_rollouts_dem.Canary.Approximate.Quotients.{ceil_sum, ceil_le}
use intuit_argo_rollouts_dem.Canary.Routed.{
  max_int, check_min_pods_per_replica_set, is_dynamic, traffic_weight_to_replicas, dynamic_counts,
  canary_by_weight, calculate_replica_counts_for_traffic_routed_canary,
}

le_max_int : (a b : ℤ) → (a ≤ℤ max_int a b) × (b ≤ℤ max_int a b)
unfolding max_int
le_max_int a b = ground arith

-- The minimum of pods never lowers a count.
le-check_min_pods : (ro : Rollout) (n : ℤ) → n ≤ℤ check_min_pods_per_replica_set ro n
unfolding check_min_pods_per_replica_set
le-check_min_pods ro n = ground arith

some_inj {ℓ} : {A : Type ℓ} (x y : A) → some x ≡ some y → x ≡ y
some_inj x y e = cc

module _ (fl : Float64) where
  dynamic_bounds :
      (abort : Bool) (replicas weight full canary : ℤ) (weights : Option TrafficWeights)
      → let counts = dynamic_counts fl abort replicas weight full canary weights in
        (canary ≤ℤ counts.0)
        × (traffic_weight_to_replicas fl replicas (sub32 full weight) full ≤ℤ counts.1)
        × ((x : TrafficWeights)
            → weights ≡ some x
            → (traffic_weight_to_replicas fl replicas x.stable.weight full ≤ℤ counts.1)
              × (abort ≡ true
                  → traffic_weight_to_replicas fl replicas x.canary.weight full ≤ℤ counts.0))
  unfolding dynamic_counts
  dynamic_bounds abort replicas weight full canary none = (omega arith, omega arith, λ x e. cc)
  dynamic_bounds abort replicas weight full canary (some y) =
      let canary_max =
        le_max_int (traffic_weight_to_replicas fl replicas y.canary.weight full) canary in
      let stable_max =
        le_max_int (traffic_weight_to_replicas fl replicas (sub32 full weight) full)
          (traffic_weight_to_replicas fl replicas y.stable.weight full) in
      (
        ground arith,
        stable_max.0,
        λ x e.
            let same : x ≡ y = sym (some_inj y x e) in
            rw same (stable_max.1, λ a. rw a canary_max.0),
      )

  abbrev counts : Rollout → Option TrafficWeights → ℤ × ℤ
  counts = calculate_replica_counts_for_traffic_routed_canary fl

  -- The count of the canary by its weight, and the replicas for a weight, of this rollout.
  abbrev by_weight : Rollout → ℤ
  by_weight ro =
      canary_by_weight fl ro (get_canary_replicas_or_weight ro).0
        (get_canary_replicas_or_weight ro).1

  abbrev replicas_for : Rollout → ℤ → ℤ
  replicas_for ro weight =
      traffic_weight_to_replicas fl (get_replicas_or_default ro.spec.replicas) weight
        (max_traffic_weight ro)

  routed_bounds :
      (ro : Rollout) (weights : Option TrafficWeights)
      → is_dynamic ro ≡ true
      → (by_weight ro ≤ℤ (counts ro weights).0)
        × (replicas_for ro (sub32 (max_traffic_weight ro) (get_canary_replicas_or_weight ro).1)
            ≤ℤ (counts ro weights).1)
        × ((x : TrafficWeights)
            → weights ≡ some x
            → (replicas_for ro x.stable.weight ≤ℤ (counts ro weights).1)
              × (ro.status.abort ≡ true → replicas_for ro x.canary.weight ≤ℤ (counts ro weights).0))
  unfolding calculate_replica_counts_for_traffic_routed_canary
  routed_bounds ro weights dyn =
      let low =
        dynamic_bounds ro.status.abort (get_replicas_or_default ro.spec.replicas)
          (get_canary_replicas_or_weight ro).1 (max_traffic_weight ro) (by_weight ro) weights in
      let dynamic =
        dynamic_counts fl ro.status.abort (get_replicas_or_default ro.spec.replicas)
          (get_canary_replicas_or_weight ro).1 (max_traffic_weight ro) (by_weight ro) weights in
      let canary_min = le-check_min_pods ro dynamic.0 in
      let stable_min = le-check_min_pods ro dynamic.1 in
      rw dyn (
        omega (arith, low.0),
        omega (arith, low.1),
        λ x e. (omega (arith, (low.2 x e).0), λ a. omega (arith, (low.2 x e).1 a)),
      )

  by_weight_low :
      (ro : Rollout) (w : ℤ)
      → get_canary_replicas_or_weight ro ≡ (none, w)
      → replicas_for ro w ≤ℤ by_weight ro
  unfolding canary_by_weight
  by_weight_low ro w e = rw e (le-check_min_pods ro (replicas_for ro w))

share_small : (s w m : ℕ) → w ≤ m → 0 < m → s ≤ 2147483647 → (w * s + m - 1) / m ≤ 2147483647
share_small s w m h k top =
    let flipped : w * s ≡ s * w = mul_comm w s in rw flipped (omega (arith, top, ceil_le s w m h k))

module _ (fl : Float64) (exact : IsExact fl) where
  to_replicas :
      (s w m : ℕ)
      → w * s < 9007199254740992
      → 0 < m
      → m ≤ 2147483647
      → (w * s + m - 1) / m ≤ 2147483647
      → traffic_weight_to_replicas fl (pos s) (pos w) (pos m) ≡ pos ((w * s + m - 1) / m)
  unfolding traffic_weight_to_replicas
  to_replicas s w m h k l q = exact.ceil-div-mul w s m h k l q

  -- Under dynamic stable scaling, with no fixed number of canary replicas and a desired weight of
  -- at most the maximum, where the replicas and the maximum are in the range of an int32, the
  -- canary and the stable counts are enough for the replicas of the spec; the stable count is
  -- enough for the traffic that the stable ReplicaSet has now; and so is the canary count for its
  -- traffic while the rollout is aborted.
  pub routed_capacity :
      (ro : Rollout) (weights : Option TrafficWeights) (s w m : ℕ)
      → is_dynamic ro ≡ true
      → get_replicas_or_default ro.spec.replicas ≡ pos s
      → max_traffic_weight ro ≡ pos m
      → get_canary_replicas_or_weight ro ≡ (none, pos w)
      → w ≤ m
      → 0 < m
      → m ≤ 2147483647
      → s ≤ 2147483647
      → m * s < 9007199254740992
      → let counts = calculate_replica_counts_for_traffic_routed_canary fl ro weights in
        (s + neg_part counts.0 + neg_part counts.1 ≤ pos_part counts.0 + pos_part counts.1)
        × ((x : TrafficWeights)
            → weights ≡ some x
            → (traffic_weight_to_replicas fl (pos s) x.stable.weight (pos m) ≤ℤ counts.1)
              × (ro.status.abort ≡ true
                  → traffic_weight_to_replicas fl (pos s) x.canary.weight (pos m) ≤ℤ counts.0))
  routed_capacity ro weights s w m dyn es em ew h k l top big =
      let (canary_low, stable_low, actual) = routed_bounds fl ro weights dyn in
      let small : w * s < 9007199254740992 = grind arith in
      let rest : (m - w) * s < 9007199254740992 = grind arith in
      let canary : replicas_for fl ro (pos w) ≡ pos ((w * s + m - 1) / m) =
        rw (es, em) (to_replicas s w m small k l (share_small s w m h k top)) in
      let stable : replicas_for fl ro
            (sub32 (max_traffic_weight ro) (get_canary_replicas_or_weight ro).1)
          ≡ pos (((m - w) * s + m - 1) / m) =
        rw (es, em, ew, sub32-pos m w h l)
          (to_replicas s (m - w) m rest k l (share_small s (m - w) m (omega arith) k top)) in
      let low = rw canary at (by_weight_low fl ro (pos w) ew) in
      let high = rw stable at stable_low in
      (
        omega (arith, low, high, canary_low, ceil_sum s (m - w) w m (omega arith) k),
        λ x e. rw (es, em) at (actual x e),
      )
