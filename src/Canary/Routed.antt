-- ===== src/Canary/Routed.antt =====
-- CalculateReplicaCountsForTrafficRoutedCanary, with CheckMinPodsPerReplicaSet.
pub mod Capacity
use intuit_argo_rollouts_dem.Prelude.{
  Bool, true, false, not, ◌||◌, Option, none, some, ℤ, pos, sub32, ltb_ℤ, eqb_ℤ, is_some,
  if◌then◌else◌,
}
use intuit_argo_rollouts_dem.Rollout.{Rollout, CanaryStrategy, RolloutTrafficRouting}
use intuit_argo_rollouts_dem.Rollout.Defaults.{get_replicas_or_default, max_traffic_weight}
use intuit_argo_rollouts_dem.Canary.Floats.{Float64}
use intuit_argo_rollouts_dem.Canary.Types.{TrafficWeights}
use intuit_argo_rollouts_dem.Canary.Steps.{get_canary_replicas_or_weight}

-- `max`, on int32.
unfoldable pub max_int : ℤ → ℤ → ℤ
max_int left right = if ltb_ℤ right left then left else right

min_pods : Option ℤ → Option RolloutTrafficRouting → ℤ → ℤ
min_pods (some n) (some t) count = max_int count n
min_pods _ _ count = count

min_pods_of : Option CanaryStrategy → ℤ → ℤ
min_pods_of none count = count
min_pods_of (some c) count = min_pods c.min_pods_per_replica_set c.traffic_routing count

unfoldable pub check_min_pods_per_replica_set : Rollout → ℤ → ℤ
unfolding min_pods min_pods_of max_int
check_min_pods_per_replica_set ro count =
    if eqb_ℤ count (pos 0) then count else min_pods_of ro.spec.canary count

dynamic_of : Option CanaryStrategy → Bool
dynamic_of none = false
dynamic_of (some c) = c.dynamic_stable_scale

unfoldable pub is_dynamic : Rollout → Bool
unfolding dynamic_of
is_dynamic ro = dynamic_of ro.spec.canary

module _ (fl : Float64) where
  unfoldable pub traffic_weight_to_replicas : (replicas weight max_weight : ℤ) → ℤ
  traffic_weight_to_replicas replicas weight max_weight =
      fl.ceil (fl.div (fl.mul (fl.of_int weight) (fl.of_int replicas)) (fl.of_int max_weight))

  -- The counts under dynamic stable scaling, before the minimum of pods, from the count of the canary
  -- by its desired weight.
  unfoldable pub dynamic_counts :
      (abort : Bool) (replicas desired_weight max_weight canary : ℤ) → Option TrafficWeights → ℤ × ℤ
  dynamic_counts abort replicas desired_weight max_weight canary none =
      (canary, traffic_weight_to_replicas replicas (sub32 max_weight desired_weight) max_weight)
  dynamic_counts abort replicas desired_weight max_weight canary (some w) = (
    if abort
        then max_int (traffic_weight_to_replicas replicas w.canary.weight max_weight) canary
        else canary,
    max_int (traffic_weight_to_replicas replicas (sub32 max_weight desired_weight) max_weight)
        (traffic_weight_to_replicas replicas w.stable.weight max_weight),
  )

  unfoldable pub canary_by_weight : Rollout → Option ℤ → ℤ → ℤ
  canary_by_weight ro (some n) weight = n
  canary_by_weight ro none weight = check_min_pods_per_replica_set ro (
      traffic_weight_to_replicas (get_replicas_or_default ro.spec.replicas) weight
        (max_traffic_weight ro))

  unfoldable pub calculate_replica_counts_for_traffic_routed_canary :
      Rollout → Option TrafficWeights → ℤ × ℤ
  unfolding canary_by_weight dynamic_counts
  calculate_replica_counts_for_traffic_routed_canary ro weights =
      let replicas = get_replicas_or_default ro.spec.replicas in
      let (fixed, desired_weight) = get_canary_replicas_or_weight ro in
      let canary = canary_by_weight ro fixed desired_weight in
      let (canary', stable) =
        dynamic_counts ro.status.abort replicas desired_weight (max_traffic_weight ro) canary
          weights in
      if not (is_dynamic ro)
      then (canary, replicas)
      else (check_min_pods_per_replica_set ro canary', check_min_pods_per_replica_set ro stable)
