-- ===== src/Traffic/Total.antt =====
-- The recorded weights add up.
use intuit_argo_rollouts_dem.Prelude.{
  ◌≡◌, ap, ◌∙◌, ℕ, ◌+◌, ◌-◌, ◌≤◌, String, List, [], ◌∷◌, pos, sub32, sub32-pos, pos_part, neg_part,
  All, arith,
}
use intuit_argo_rollouts_dem.Rollout.{Rollout, CanaryStrategy, WeightDestination}
use intuit_argo_rollouts_dem.Rollout.Defaults.{max_traffic_weight}
use intuit_argo_rollouts_dem.Traffic.{less_destinations, calculate_weights}

abbrev pub total_weight : List WeightDestination → ℕ
total_weight [] = 0
total_weight (d ∷ ds) = pos_part d.weight + total_weight ds

abbrev pub IsNatural : WeightDestination → Type 0
IsNatural d = d.weight ≡ pos (pos_part d.weight)

less_destinations-total :
    (n : ℕ) (ds : List WeightDestination)
    → All IsNatural ds
    → total_weight ds ≤ n
    → n ≤ 2147483647
    → less_destinations (pos n) ds ≡ pos (n - total_weight ds)
unfolding less_destinations
less_destinations-total n [] h k b = ap pos (omega arith)
less_destinations-total n (d ∷ ds) (h, hs) k b =
    ap (λ w. less_destinations (sub32 (pos n) w) ds) h
    ∙ ap (λ w. less_destinations w ds) (sub32-pos n (pos_part d.weight) (omega (arith, k)) b)
    ∙ less_destinations-total (n - pos_part d.weight) ds hs (omega (arith, k)) (omega (arith, b))
    ∙ ap pos (omega (arith, k))

-- Where the weights of the canary and of the other destinations are natural numbers of at most the
-- maximum weight together, the recorded weights of the canary, the stable ReplicaSet and the other
-- destinations add up to the maximum weight.
pub calculate_weights-total :
    (ro : Rollout) (strategy : CanaryStrategy) (canary_hash stable_hash : String) (d m : ℕ)
    (ds : List WeightDestination)
    → max_traffic_weight ro ≡ pos m
    → m ≤ 2147483647
    → All IsNatural ds
    → d + total_weight ds ≤ m
    → let w = calculate_weights ro strategy canary_hash stable_hash (pos d) ds in
      (pos_part w.canary.weight + pos_part w.stable.weight + total_weight w.additional ≡ m)
      × (neg_part w.stable.weight ≡ 0)
unfolding calculate_weights
calculate_weights-total ro strategy canary_hash stable_hash d m ds e b h k =
    let stable =
      ap (λ w. less_destinations (sub32 w (pos d)) ds) e
      ∙ ap (λ w. less_destinations w ds) (sub32-pos m d (omega (arith, k)) b)
      ∙ less_destinations-total (m - d) ds h (omega (arith, k)) (omega (arith, b)) in
    (omega (arith, k, ap pos_part stable), ap neg_part stable)
