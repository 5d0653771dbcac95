-- ===== src/Traffic/Examples.antt =====
-- Examples of the recorded weights.
use intuit_argo_rollouts_dem.Prelude.{
  ◌≡◌, refl, ◌+◌, [], ◌∷◌, none, some, true, pos, pos_part, mul32, sub32, int32, ◌*ℤ◌, ◌-ℤ◌,
  neg_part, arith,
}
use intuit_argo_rollouts_dem.Rollout.{WeightDestination}
use intuit_argo_rollouts_dem.Rollout.Defaults.{max_traffic_weight}
use intuit_argo_rollouts_dem.Rollout.Sample.{rollout, canary}
use intuit_argo_rollouts_dem.Traffic.{
  quot32, calculate_weights, previous_weight, calculate_desired_weight_on_abort_or_stable_rollback,
}
use intuit_argo_rollouts_dem.Context.{RolloutContext}
use intuit_argo_rollouts_dem.Sync.Sample.{context, set_of}
use intuit_argo_rollouts_dem.Traffic.Total.{total_weight, calculate_weights-total}

abbrev experiment : WeightDestination
experiment = record { weight = pos 5; service_name = "baseline"; pod_template_hash = "789" }

-- Seven pods of ten are available in the stable ReplicaSet.
abbrev aborting : RolloutContext
aborting = record context { stable_rs = some (set_of "old" (pos 7)) }

calculate_weights-total_example :
    let w = calculate_weights rollout (canary true) "456" "123" (pos 20) (experiment ∷ []) in
    (pos_part w.canary.weight + pos_part w.stable.weight + total_weight w.additional ≡ 100)
    × (neg_part w.stable.weight ≡ 0)
calculate_weights-total_example =
    calculate_weights-total rollout (canary true) "456" "123" 20 100 (experiment ∷ [])
      (unfold max_traffic_weight in refl) (omega arith) (refl, tt) (omega arith)

-- The weight before the last step is that of the first.
previous_weight_lem : previous_weight (canary true).steps 2 ≡ some (pos 20)
unfolding previous_weight
previous_weight_lem = refl

-- An index past the steps panics.
previous_weight_past : previous_weight (canary true).steps 4 ≡ none
unfolding previous_weight
previous_weight_past = refl

-- The weight of the example.
aborting_weight :
    calculate_desired_weight_on_abort_or_stable_rollback aborting (canary true) ≡ some (pos 30)
unfolding calculate_desired_weight_on_abort_or_stable_rollback max_traffic_weight quot32 mul32 sub32
    int32 ◌*ℤ◌ ◌-ℤ◌
aborting_weight = refl
