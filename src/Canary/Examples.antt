-- ===== src/Canary/Examples.antt =====
-- Examples of the canary calculations.
use intuit_argo_rollouts_dem.Prelude.{
  ◌≡◌, ap, ◌≤◌, ◌+◌, refl, String, Bool, true, false, Option, none, some, [], ℤ, pos, pos_part,
  neg_part, ◌≤ℤ◌, int32, add32, sub32, ◌+ℤ◌, ◌-ℤ◌, inl, inr, arith,
}
use intuit_argo_rollouts_dem.Common.{from_int, from_string}
use intuit_argo_rollouts_dem.Rollout.{Rollout}
use intuit_argo_rollouts_dem.Rollout.Defaults.{
  get_replicas_or_default, max_traffic_weight, get_max_surge_or_default,
  get_max_unavailable_or_default,
}
use intuit_argo_rollouts_dem.Rollout.Sample.{rollout, rollout_of}
use intuit_argo_rollouts_dem.Canary.Floats.Rational.{rational, rational-IsExact}
use intuit_argo_rollouts_dem.Canary.Types.{ReplicaSet, TrafficWeights}
use intuit_argo_rollouts_dem.Canary.Steps.{
  find_back, get_current_set_weight, get_canary_replicas_or_weight, use_set_canary_scale,
}
use intuit_argo_rollouts_dem.Canary.Steps.Backwards.{
  get_current_set_weight_lem, get_current_set_weight_bounds,
}
use intuit_argo_rollouts_dem.Canary.Approximate.{approximate_counts}
use intuit_argo_rollouts_dem.Canary.Approximate.Split.{IsSplit, approximate_counts-IsSplit}
use intuit_argo_rollouts_dem.Canary.Approximate.Proper.{
  IsProper, IsStarved, approximate_counts-IsProper, approximate_counts-starves,
}
use intuit_argo_rollouts_dem.Canary.Routed.{
  is_dynamic, calculate_replica_counts_for_traffic_routed_canary,
}
use intuit_argo_rollouts_dem.Canary.Routed.Capacity.{routed_capacity}
use intuit_argo_rollouts_dem.Canary.ReplicaSets.{
  get_replica_count_for_replica_sets, check_stable_rs_exists, get_replicas_for_scale_down,
}
use intuit_argo_rollouts_dem.Canary.Fenceposts.{
  OfPercent, resolve_fenceposts, max_surge, max_unavailable,
}
use intuit_argo_rollouts_dem.Canary.Basic.{
  calculate_replica_counts_for_basic_canary, calculate_scale_down_replica_count,
  adjust_replica_within_limits, counts_within, min_value,
}
use intuit_argo_rollouts_dem.Canary.Basic.Total.{calculate_replica_counts_for_basic_canary-IsWithin}
use intuit_argo_rollouts_dem.Canary.Basic.Availability.{IsEnough}
use intuit_argo_rollouts_dem.Canary.Basic.Disruption.{
  calculate_replica_counts_for_basic_canary-IsEnough,
}
use intuit_argo_rollouts_dem.Canary.Basic.Natural.{
  calculate_replica_counts_for_basic_canary-IsNatural,
}

get_current_set_weight_lem_example : get_current_set_weight rollout ≡ pos 20
get_current_set_weight_lem_example = get_current_set_weight_lem rollout

get_current_set_weight_bounds_example :
    (pos 0 ≤ℤ get_current_set_weight rollout)
    × (get_current_set_weight rollout ≤ℤ max_traffic_weight rollout)
get_current_set_weight_bounds_example =
    get_current_set_weight_bounds rollout (unfold max_traffic_weight in ground arith) (
      unfold max_traffic_weight in
      ((λ w e. ground arith), ((λ w e. ground arith), ((λ w e. ground arith), tt))))

approximate_counts-IsSplit_example :
    IsSplit 10 1 (approximate_counts rational (pos 10) (pos 20) (pos 100) (pos 1))
approximate_counts-IsSplit_example =
    approximate_counts-IsSplit rational rational-IsExact 10 20 100 1 (ground arith) (ground arith)
      (ground arith) (ground arith) (ground arith)

approximate_counts-IsProper_example :
    IsProper (approximate_counts rational (pos 10) (pos 1) (pos 100) (pos 0))
approximate_counts-IsProper_example =
    approximate_counts-IsProper rational rational-IsExact 10 1 100 0 (ground arith) (ground arith)
      (ground arith) (ground arith) (ground arith) (ground arith) (inl (ground arith))
      (inr (inr (ground arith)))

-- Two replicas and a weight of 75: the canary has none.
approximate_counts-starves_example :
    ((approximate_counts rational (pos 2) (pos 75) (pos 100) (pos 0)).0 ≡ pos 0
      → IsStarved rational 2 75 100 0)
    × (IsStarved rational 2 75 100 0
        → approximate_counts rational (pos 2) (pos 75) (pos 100) (pos 0) ≡ (pos 0, pos 2))
approximate_counts-starves_example =
    approximate_counts-starves rational rational-IsExact 2 75 100 0 (ground arith) (ground arith)
      (ground arith) (ground arith) (ground arith) (ground arith) (inl (ground arith))

abbrev routed : Rollout
routed = rollout_of true

abbrev weights : Option TrafficWeights
weights = some (record {
  canary = record { weight = pos 20; service_name = ""; pod_template_hash = "new" };
  stable = record { weight = pos 80; service_name = ""; pod_template_hash = "old" };
  additional = [];
  verified = none;
})

current_weight : (r : Bool) → get_canary_replicas_or_weight (rollout_of r) ≡ (none, pos 20)
current_weight true =
    unfold find_back get_canary_replicas_or_weight get_current_set_weight use_set_canary_scale in
    refl
current_weight false =
    unfold find_back get_canary_replicas_or_weight get_current_set_weight use_set_canary_scale in
    refl

abbrev routed_counts : ℤ × ℤ
routed_counts = calculate_replica_counts_for_traffic_routed_canary rational routed weights

routed_capacity_example :
    10 + neg_part routed_counts.0 + neg_part routed_counts.1
    ≤ pos_part routed_counts.0 + pos_part routed_counts.1
routed_capacity_example =
    (routed_capacity rational rational-IsExact routed weights 10 20 100 (unfold is_dynamic in refl)
      (unfold get_replicas_or_default in refl) (unfold max_traffic_weight in refl)
      (current_weight true) (ground arith) (ground arith) (ground arith) (ground arith)
      (ground arith)).0

-- Whole numbers only.
abbrev whole : OfPercent
whole (from_int z) total up = some z
whole (from_string s) total up = none

abbrev set_of : String → ℤ → ReplicaSet
set_of name n = record {
  name = name;
  replicas = n;
  available_replicas = n;
  current_replicas = n;
  ready_replicas = n;
  pod_hash = name;
  created = pos 0;
  scale_down_deadline = none;
  experiment_name = "";
  desired_replicas = "";
  conditions = [];
}

limits : (max_surge whole rollout ≡ pos 1) × (max_unavailable whole rollout ≡ pos 1)
limits =
    unfold max_surge max_unavailable resolve_fenceposts get_max_surge_or_default
      get_max_unavailable_or_default get_replicas_or_default int32 in
    (refl, refl)

abbrev basic_counts : ℤ × ℤ
basic_counts =
    calculate_replica_counts_for_basic_canary rational whole rollout (some (set_of "new" (pos 1)))
      (some (set_of "old" (pos 10))) []

calculate_replica_counts_for_basic_canary-IsWithin_example :
    pos_part (get_replica_count_for_replica_sets [])
      + pos_part basic_counts.0
      + pos_part basic_counts.1
    ≤ 11 + neg_part basic_counts.0 + neg_part basic_counts.1
calculate_replica_counts_for_basic_canary-IsWithin_example =
    calculate_replica_counts_for_basic_canary-IsWithin rational rational-IsExact whole rollout
      (some (set_of "new" (pos 1))) (some (set_of "old" (pos 10))) [] 10 20 100 1 1 11
      (unfold get_replicas_or_default in refl) (ap (λ p. p.1) (current_weight false))
      (unfold max_traffic_weight in refl) limits.0 limits.1 (ground arith) (ground arith)
      (ground arith) (ground arith) (ground arith) (ground arith) (ground arith)
      (unfold get_replica_count_for_replica_sets in ground arith) (ground arith)
      (unfold get_replica_count_for_replica_sets check_stable_rs_exists in ground arith)

calculate_replica_counts_for_basic_canary-IsEnough_example :
    IsEnough 9 (min_value (pos 1) basic_counts.0) (min_value (pos 10) basic_counts.1)
calculate_replica_counts_for_basic_canary-IsEnough_example =
    calculate_replica_counts_for_basic_canary-IsEnough rational rational-IsExact whole rollout
      (set_of "new" (pos 1)) (set_of "old" (pos 10)) [] 10 20 100 1 1 9
      (unfold get_replicas_or_default in refl) (ap (λ p. p.1) (current_weight false))
      (unfold max_traffic_weight in refl) limits.0 limits.1 (ground arith) (ground arith)
      (ground arith) (ground arith) (ground arith) (ground arith) (ground arith)
      (unfold get_replica_count_for_replica_sets in ground arith)
      (unfold check_stable_rs_exists in refl) (ground arith) (ground arith)

calculate_replica_counts_for_basic_canary-IsNatural_example :
    (neg_part basic_counts.0 ≡ 0) × (neg_part basic_counts.1 ≡ 0)
calculate_replica_counts_for_basic_canary-IsNatural_example =
    calculate_replica_counts_for_basic_canary-IsNatural rational rational-IsExact whole rollout
      (some (set_of "new" (pos 1))) (some (set_of "old" (pos 10))) [] 10 20 100 1 1
      (unfold get_replicas_or_default in refl) (ap (λ p. p.1) (current_weight false))
      (unfold max_traffic_weight in refl) limits.0 limits.1 (ground arith) (ground arith)
      (ground arith) (ground arith) (ground arith) (ground arith) (ground arith)
      (unfold get_replica_count_for_replica_sets in ground arith)

-- Ten replicas of which two are available, scaled to five while the canary is the stable set.
abbrev promoted : ReplicaSet
promoted = record (set_of "new" (pos 10)) { available_replicas = pos 2 }

promoted_undershoots :
    counts_within (some promoted) (some promoted) [] false (pos 5) (pos 0) (pos 5) (pos 4)
    ≡ (pos 3, pos 2)
promoted_undershoots =
    unfold counts_within get_replica_count_for_replica_sets get_replicas_for_scale_down
      calculate_scale_down_replica_count adjust_replica_within_limits add32 sub32 int32 ◌+ℤ◌ ◌-ℤ◌ in
    refl
