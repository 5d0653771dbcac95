-- ===== src/Traffic.antt =====
-- rollout/trafficrouting.go: the weight of the canary that reconcileTrafficRouting asks a router
-- for, and the weights it records. The experiment's destinations and the calls of the router are
-- outside the model.
mod Examples
pub mod Abort
pub mod Total
use intuit_argo_rollouts_dem.Prelude.{
  ℕ, zero, suc, ◌/◌, ◌-◌, String, Bool, true, false, not, ◌&&◌, ◌||◌, ◌==◌, Option, none, some,
  List, [], ◌∷◌, ℤ, pos, negsuc, ◌-ℤ◌, mul32, sub32, int32, eqb_ℤ, ltb_ℤ, str_eq, length, get_elem?,
  is_some, if◌then◌else◌,
}
use intuit_argo_rollouts_dem.Rollout.{
  Rollout, CanaryStrategy, CanaryStep, CanaryStatus, WeightDestination, TrafficWeights,
}
use intuit_argo_rollouts_dem.Rollout.Defaults.{max_traffic_weight, get_replicas_or_default}
use intuit_argo_rollouts_dem.Canary.Types.{ReplicaSet}
use intuit_argo_rollouts_dem.Canary.Floats.{Float64}
use intuit_argo_rollouts_dem.Canary.Fenceposts.{OfPercent}
use intuit_argo_rollouts_dem.Canary.Basic.{at_desired_replica_counts_for_canary}
use intuit_argo_rollouts_dem.Canary.Steps.{get_current_canary_step, get_current_set_weight}
use intuit_argo_rollouts_dem.Pause.{is_aborted}
use intuit_argo_rollouts_dem.Status.Phase.{is_fully_promoted}
use intuit_argo_rollouts_dem.Context.{RolloutContext, the_rollout, pointers}

-- Go's quotient of int32 values, which is rounded towards zero. Nothing is a division by zero,
-- which panics.
unfoldable pub quot32 : ℤ → ℤ → Option ℤ
quot32 a (pos zero) = none
quot32 (pos a) (pos (suc b)) = some (pos (a / suc b))
quot32 (negsuc a) (pos (suc b)) = some (pos 0 -ℤ pos (suc a / suc b))
quot32 (pos a) (negsuc b) = some (pos 0 -ℤ pos (a / suc b))
quot32 (negsuc a) (negsuc b) = some (int32 (pos (suc a / suc b)))

-- A quotient by `*Spec.Replicas`.
abbrev pub per_replica : ℤ → Option ℤ → Option ℤ
per_replica weight none = none
per_replica weight (some replicas) = quot32 weight replicas

abbrev pub max_int : ℤ → ℤ → ℤ
max_int left right = if ltb_ℤ right left then left else right

abbrev pub min_int : ℤ → ℤ → ℤ
min_int left right = if ltb_ℤ left right then left else right

abbrev pub hash_of : Option ReplicaSet → String
hash_of none = ""
hash_of (some rs) = rs.pod_hash

-- A lower weight of before is kept.
not_above : Option TrafficWeights → ℤ → ℤ
not_above none weight = weight
not_above (some w) weight = min_int weight w.canary.weight

less_share : Option TrafficWeights → ℤ → Option ℤ → Option ℤ
less_share weights most none = none
less_share weights most (some share) = some (not_above weights (max_int (pos 0) (sub32 most share)))

-- Nothing is a panic: with dynamic stable scaling the source reads the stable set and divides by
-- the replicas.
abort_weight : Rollout → Bool → Option ReplicaSet → Option ℤ
abort_weight ro false stable = some (pos 0)
abort_weight ro true none = none
abort_weight ro true (some stable) =
    let most = max_traffic_weight ro in
    less_share ro.status.canary.weights most
      (per_replica (mul32 most stable.available_replicas) ro.spec.replicas)

unfoldable pub calculate_desired_weight_on_abort_or_stable_rollback :
    RolloutContext → CanaryStrategy → Option ℤ
unfolding abort_weight less_share not_above
calculate_desired_weight_on_abort_or_stable_rollback c strategy =
    abort_weight (the_rollout c) strategy.dynamic_stable_scale c.stable_rs

rollback_hash : Rollout → Option ReplicaSet → Option TrafficWeights → Option (Option String)
rollback_hash ro new none = some none
rollback_hash ro none (some w) = if str_eq w.canary.pod_template_hash "" then some none else none
rollback_hash ro (some rs) (some w) =
    if str_eq w.canary.pod_template_hash rs.pod_hash then some none else elim ro.spec.replicas [
      | none ↦ none
      | some replicas ↦
          some
            (if ltb_ℤ rs.available_replicas replicas then some w.canary.pod_template_hash else none)
    ]

-- The hash that the traffic was shifted to before, where the rollout is rolling back. The outer
-- nothing is a panic: the source reads the desired ReplicaSet and the replicas.
unfoldable pub is_dynamically_rolling_back_to_stable :
    Rollout → CanaryStrategy → Option ReplicaSet → Option (Option String)
unfolding rollback_hash
is_dynamically_rolling_back_to_stable ro strategy desired_rs =
    if is_fully_promoted ro.status
      && is_some strategy.traffic_routing
      && strategy.dynamic_stable_scale
    then rollback_hash ro desired_rs ro.status.canary.weights
    else some none

-- What the router is asked for: the weight and the hash of the canary, whether the destinations of
-- the experiment are added, whether the managed routes are removed, and whether the canary service
-- is pointed at the stable set.
pub record Routing : Type 0 where
  pub weight : ℤ
  pub canary_hash : String
  pub with_experiment : Bool
  pub removes_routes : Bool
  pub resets_service : Bool

abbrev plain : String → ℤ → Routing
plain hash weight = record {
  weight = weight;
  canary_hash = hash;
  with_experiment = false;
  removes_routes = false;
  resets_service = false;
}

routed_by : Option ℤ → (ℤ → Routing) → Option Routing
routed_by none f = none
routed_by (some weight) f = some (f weight)

weight_of_step : Option CanaryStep → Option ℤ → Option ℤ
weight_of_step none rest = none
weight_of_step (some step) rest = elim step.set_weight [ none ↦ rest | some w ↦ some w ]

-- `for i := index - 1; i >= 0; i--`: the last weight before the index. An index past the steps panics.
unfoldable pub previous_weight : List CanaryStep → ℕ → Option ℤ
unfolding weight_of_step
previous_weight steps zero = some (pos 0)
previous_weight steps (suc i) =
    let rest = previous_weight steps i in weight_of_step (get_elem? steps i) rest

canary_weight : Option TrafficWeights → ℤ
canary_weight none = pos 0
canary_weight (some w) = w.canary.weight

module _ (fl : Float64) (of_percent : OfPercent) (c : RolloutContext)
    (strategy : CanaryStrategy) where
  -- In a full promotion, by the available pods or as before.
  promotion_weight : ReplicaSet → Option ℤ
  unfolding canary_weight
  promotion_weight new =
      let ro = the_rollout c in
      if strategy.dynamic_stable_scale
      then per_replica (mul32 (max_traffic_weight ro) new.available_replicas) ro.spec.replicas
      else some (canary_weight ro.status.canary.weights)

  at_count : ReplicaSet → ℕ → Option Bool → Option Routing
  unfolding routed_by
  at_count new i none = none
  at_count new i (some false) =
      routed_by (previous_weight strategy.steps i)
        (λ w. record (plain new.pod_hash w) { with_experiment = true })
  at_count new i (some true) =
      if not (i == length strategy.steps)
      then some (record (plain new.pod_hash (get_current_set_weight (the_rollout c))) {
        with_experiment = true;
      })
      else some (plain new.pod_hash (max_traffic_weight (the_rollout c)))

  by_step : ReplicaSet → Option ℕ → Option Routing
  unfolding at_count
  by_step new none = some (plain new.pod_hash (pos 0))
  by_step new (some i) = at_count new i (
      at_desired_replica_counts_for_canary fl of_percent (the_rollout c) c.new_rs c.stable_rs
        (pointers c.other_rss) none)

  while_updating : Option ReplicaSet → Option Routing
  unfolding promotion_weight by_step
  while_updating none = some (record (plain "" (pos 0)) { with_experiment = true })
  while_updating (some new) =
      if eqb_ℤ new.available_replicas (pos 0)
      then some (record (plain new.pod_hash (pos 0)) { with_experiment = true })
      else (if (the_rollout c).status.promote_full
          then routed_by (promotion_weight new)
              (λ w. record (plain new.pod_hash w) { removes_routes = true })
          else by_step new (get_current_canary_step (the_rollout c)).1)

  unless_rolling_back : Option (Option String) → Option Routing
  unfolding while_updating
  unless_rolling_back none = none
  unless_rolling_back (some (some hash)) =
      routed_by (calculate_desired_weight_on_abort_or_stable_rollback c strategy)
        (λ w. plain hash w)
  unless_rolling_back (some none) =
      if is_fully_promoted (the_rollout c).status
      then some (record (plain (hash_of c.new_rs) (pos 0)) { removes_routes = true })
      else (if is_aborted c.pause
          then routed_by (calculate_desired_weight_on_abort_or_stable_rollback c strategy) (λ w.
            record (plain (hash_of c.new_rs) w) {
              removes_routes = true;
              resets_service = not strategy.dynamic_stable_scale || eqb_ℤ w (pos 0);
            })
          else while_updating c.new_rs)

  -- What reconcileTrafficRouting asks for; nothing is a panic.
  unfoldable pub desired_routing : Option Routing
  unfolding unless_rolling_back
  desired_routing =
      unless_rolling_back (is_dynamically_rolling_back_to_stable (the_rollout c) strategy c.new_rs)

less_destinations : ℤ → List WeightDestination → ℤ
less_destinations weight [] = weight
less_destinations weight (d ∷ ds) = less_destinations (sub32 weight d.weight) ds

-- The new weights of calculateWeightStatus.
unfoldable pub calculate_weights :
    Rollout
    → CanaryStrategy
    → (canary_hash stable_hash : String) → ℤ
    → List WeightDestination
    → TrafficWeights
unfolding less_destinations
calculate_weights ro strategy canary_hash stable_hash desired destinations = record {
  canary = record {
    weight = desired;
    service_name = strategy.canary_service;
    pod_template_hash = canary_hash;
  };
  stable = record {
    weight = less_destinations (sub32 (max_traffic_weight ro) desired) destinations;
    service_name = strategy.stable_service;
    pod_template_hash = stable_hash;
  };
  additional = destinations;
  verified = none;
}
