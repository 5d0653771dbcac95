-- ===== src/Canary/Basic.antt =====
-- CalculateReplicaCountsForBasicCanary and AtDesiredReplicaCountsForCanary, with their helpers. A
-- pair of counts is written as the source returns it: the drained set first, or the canary first.
pub mod Surge
pub mod Within
pub mod Total
pub mod Availability
pub mod Sides
pub mod Disruption
pub mod Signs
pub mod Natural
use intuit_argo_rollouts_dem.Prelude.{
  Bool, true, false, not, ◌&&◌, ◌||◌, Option, none, some, List, [], ◌∷◌, ◌++◌, ℤ, pos, add32, sub32,
  eqb_ℤ, ltb_ℤ, leb_ℤ, is_some, if◌then◌else◌,
}
use intuit_argo_rollouts_dem.Rollout.{Rollout, CanaryStrategy}
use intuit_argo_rollouts_dem.Rollout.Defaults.{get_replicas_or_default, max_traffic_weight}
use intuit_argo_rollouts_dem.Canary.Floats.{Float64}
use intuit_argo_rollouts_dem.Canary.Types.{ReplicaSet, TrafficWeights}
use intuit_argo_rollouts_dem.Canary.Steps.{get_canary_replicas_or_weight}
use intuit_argo_rollouts_dem.Canary.ReplicaSets.{
  get_replica_count_for_replica_sets, get_available_replica_count_for_replica_sets,
  check_stable_rs_exists, get_replicas_for_scale_down, all_desired_are_available,
  all_desired_are_created,
}
use intuit_argo_rollouts_dem.Canary.Fenceposts.{OfPercent, max_surge, max_unavailable}
use intuit_argo_rollouts_dem.Canary.Approximate.{approximate_counts, when}
use intuit_argo_rollouts_dem.Canary.Routed.{calculate_replica_counts_for_traffic_routed_canary}

abbrev pub min_value : ℤ → ℤ → ℤ
min_value a b = if ltb_ℤ b a then b else a

abbrev pub max_value : ℤ → ℤ → ℤ
max_value a b = if ltb_ℤ a b then b else a

abbrev pub replicas_or_zero : Option ReplicaSet → ℤ
replicas_or_zero none = pos 0
replicas_or_zero (some rs) = rs.replicas

unfoldable pub calculate_scale_down_replica_count :
    Option ReplicaSet → (desired scale_down_count drain_count : ℤ) → ℤ
calculate_scale_down_replica_count none desired scale_down_count drain_count = drain_count
calculate_scale_down_replica_count (some rs) desired scale_down_count drain_count =
    if ltb_ℤ desired rs.replicas
    then max_value desired (sub32 rs.replicas scale_down_count)
    else drain_count

-- How far the two counts are over the limit.
unfoldable pub over_the_limit : (adjust_count drain_count max_allowed : ℤ) → ℤ
over_the_limit adjust_count drain_count max_allowed =
    max_value (pos 0) (sub32 (add32 adjust_count drain_count) max_allowed)

-- The available replicas of the drained set that remain.
unfoldable pub available_of_drain : Option ReplicaSet → ℤ → ℤ
available_of_drain none drain_count = pos 0
available_of_drain (some rs) drain_count =
    add32 (pos 0) (min_value rs.available_replicas drain_count)

unfoldable pub adjust_replica_within_limits :
    (drain_rs adjust_rs : Option ReplicaSet)
    (drain_count adjust_count max_allowed min_available : ℤ)
    → ℤ × ℤ
unfolding over_the_limit available_of_drain
adjust_replica_within_limits drain_rs none drain_count adjust_count max_allowed min_available =
    (drain_count, adjust_count)
adjust_replica_within_limits drain_rs (some rs) drain_count adjust_count max_allowed min_available =
    let reduced = sub32 adjust_count (over_the_limit adjust_count drain_count max_allowed) in
    let total_available =
      add32 (available_of_drain drain_rs drain_count) (min_value rs.available_replicas reduced) in
    let extra_available = max_value (pos 0) (sub32 rs.available_replicas reduced) in
    let more_needed = max_value (pos 0) (sub32 min_available total_available) in
    let adjusted = add32 reduced (min_value extra_available more_needed) in
    (sub32 drain_count (over_the_limit adjusted drain_count max_allowed), adjusted)

-- The count of a set that is scaled up as far as the surplus allows, and the surplus that is left.
unfoldable pub scale_up : (current desired count surplus : ℤ) → ℤ × ℤ
scale_up current desired count surplus =
    if ltb_ℤ current desired && ltb_ℤ (pos 0) surplus
    then (if ltb_ℤ (add32 current surplus) desired
        then (add32 current surplus, pos 0)
        else (desired, sub32 surplus (sub32 desired current)))
    else (count, surplus)

unfoldable pub scale_up_if : Option ReplicaSet → Bool → (desired count surplus : ℤ) → ℤ × ℤ
unfolding scale_up
scale_up_if (some rs) true desired count surplus = scale_up rs.replicas desired count surplus
scale_up_if _ _ desired count surplus = (count, surplus)

-- The counts of the canary and of the stable set after scaling up, the stable set first.
unfoldable pub scaled_up :
    (new_rs stable_rs : Option ReplicaSet) → Bool → (desired_new desired_stable surplus : ℤ) → ℤ × ℤ
unfolding scale_up_if
scaled_up new_rs stable_rs scale_stable desired_new desired_stable surplus =
    let (stable, left) =
      scale_up_if stable_rs scale_stable desired_stable
        (if scale_stable then replicas_or_zero stable_rs else pos 0) surplus in
    ((scale_up_if new_rs true desired_new (replicas_or_zero new_rs) left).0, stable)

-- The second half: scaling down, from the counts after scaling up.
unfoldable pub scaled_down :
    (new_rs stable_rs : Option ReplicaSet)
    → Bool
    → (desired_new desired_stable max_allowed min_available new stable : ℤ) → ℤ × ℤ
scaled_down new_rs stable_rs scale_stable desired_new desired_stable max_allowed min_available new
      stable =
    let is_increasing = not (is_some new_rs) || leb_ℤ (replicas_or_zero new_rs) desired_new in
    let to_scale_down =
      add32 (get_replicas_for_scale_down new_rs (not is_increasing))
        (get_replicas_for_scale_down stable_rs is_increasing) in
    let count = sub32 to_scale_down min_available in
    let down =
      adjust_replica_within_limits new_rs stable_rs
        (calculate_scale_down_replica_count new_rs desired_new count new) stable max_allowed
        min_available in
    let (stable', new') =
      adjust_replica_within_limits stable_rs new_rs
        (calculate_scale_down_replica_count stable_rs desired_stable count stable) new max_allowed
        min_available in
    if leb_ℤ to_scale_down min_available
    then (new, stable)
    else (if not is_increasing
        then down
        else (if scale_stable then (new', stable') else (new, stable)))

-- The calculation, from the desired counts and the limits.
unfoldable pub counts_within :
    (new_rs stable_rs : Option ReplicaSet)
    → List (Option ReplicaSet)
    → Bool
    → (desired_new desired_stable max_allowed min_available : ℤ) → ℤ × ℤ
unfolding scaled_up scaled_down
counts_within new_rs stable_rs old_rss scale_stable desired_new desired_stable max_allowed
      min_available =
    let all_rss = (old_rss ++ (new_rs ∷ [])) ++ when scale_stable (stable_rs ∷ []) in
    let surplus = sub32 max_allowed (get_replica_count_for_replica_sets all_rss) in
    let (new, stable) =
      scaled_up new_rs stable_rs scale_stable desired_new desired_stable surplus in
    if ltb_ℤ (pos 0) (get_replica_count_for_replica_sets old_rss)
    then (new, stable)
    else scaled_down new_rs stable_rs scale_stable desired_new desired_stable max_allowed
        min_available new stable

module _ (fl : Float64) (of_percent : OfPercent) where
  unfoldable pub calculate_replica_counts_for_basic_canary :
      Rollout → (new_rs stable_rs : Option ReplicaSet) → List (Option ReplicaSet) → ℤ × ℤ
  calculate_replica_counts_for_basic_canary ro new_rs stable_rs old_rss =
      let replicas = get_replicas_or_default ro.spec.replicas in
      let surge = max_surge of_percent ro in
      let (new, stable) =
        approximate_counts fl replicas (get_canary_replicas_or_weight ro).1 (max_traffic_weight ro)
          surge in
      let scale_stable = check_stable_rs_exists new_rs stable_rs in
      counts_within new_rs stable_rs old_rss scale_stable (if scale_stable then new else replicas)
        (if scale_stable then stable else pos 0) (add32 replicas surge)
        (sub32 replicas (max_unavailable of_percent ro))

  -- The three checks, from whether the rollout routes traffic and scales the stable set dynamically.
  at_desired :
      (routed dynamic : Bool)
      → (new_rs stable_rs : Option ReplicaSet) → List (Option ReplicaSet)
      → ℤ × ℤ
      → Bool
  at_desired routed dynamic new_rs stable_rs older_rss (desired_new, desired_stable) =
      all_desired_are_available new_rs desired_new
      && (all_desired_are_created stable_rs desired_stable || (routed && dynamic))
      && (eqb_ℤ (get_available_replica_count_for_replica_sets older_rss) (pos 0) || routed)

  -- With no canary strategy the source dereferences a nil pointer.
  at_desired_for :
      Rollout
      → Option CanaryStrategy
      → (new_rs stable_rs : Option ReplicaSet) → List (Option ReplicaSet)
      → Option TrafficWeights
      → Option Bool
  unfolding at_desired
  at_desired_for ro none new_rs stable_rs older_rss weights = none
  at_desired_for ro (some c) new_rs stable_rs older_rss weights = some (
      at_desired (is_some c.traffic_routing) c.dynamic_stable_scale new_rs stable_rs older_rss (
        if is_some c.traffic_routing
        then calculate_replica_counts_for_traffic_routed_canary fl ro weights
        else calculate_replica_counts_for_basic_canary ro new_rs stable_rs older_rss))

  unfoldable pub at_desired_replica_counts_for_canary :
      Rollout
      → (new_rs stable_rs : Option ReplicaSet) → List (Option ReplicaSet)
      → Option TrafficWeights
      → Option Bool
  unfolding at_desired_for
  at_desired_replica_counts_for_canary ro new_rs stable_rs older_rss weights =
      at_desired_for ro ro.spec.canary new_rs stable_rs older_rss weights
