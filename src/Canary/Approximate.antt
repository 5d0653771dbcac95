-- ===== src/Canary/Approximate.antt =====
-- approximateWeightedCanaryStableReplicaCounts, and the helpers that it calls.
pub mod Quotients
pub mod Split
pub mod Proper
use intuit_argo_rollouts_dem.Prelude.{
  ℕ, Bool, true, false, not, ◌&&◌, ◌||◌, List, [], ◌∷◌, ◌++◌, ℤ, pos, ◌+ℤ◌, ◌-ℤ◌, ◌*ℤ◌, add32,
  sub32, mul32, eqb_ℤ, ltb_ℤ, if◌then◌else◌,
}
use intuit_argo_rollouts_dem.Canary.Floats.{Float64}

pub record CanaryOption : Type 0 where
  pub canary : ℤ
  pub total : ℤ

abbrev pub when {ℓ} : {A : Type ℓ} → Bool → List A → List A
when true xs = xs
when false xs = []

module _ (fl : Float64) where
  unfoldable pub floor_ceiling_tied : (desired_weight max_weight total_replicas : ℤ) → Bool
  floor_ceiling_tied desired_weight max_weight total_replicas =
      fl.has_half (
        fl.mul (fl.of_int total_replicas)
          (fl.div (fl.of_int desired_weight) (fl.of_int max_weight)))

  unfoldable pub weight_delta :
      (desired_weight max_weight canary_replicas total_replicas : ℤ) → fl.F
  weight_delta desired_weight max_weight canary_replicas total_replicas =
      fl.distance (fl.div (fl.of_int (mul32 canary_replicas max_weight)) (fl.of_int total_replicas))
        (fl.of_int desired_weight)

  -- The loop over the remaining options.
  unfoldable pub best_of :
      (desired_weight max_weight : ℤ) → CanaryOption → List CanaryOption → CanaryOption
  best_of desired_weight max_weight best [] = best
  best_of desired_weight max_weight best (o ∷ os) =
      best_of desired_weight max_weight
        (if fl.is_less (weight_delta desired_weight max_weight o.canary o.total)
            (weight_delta desired_weight max_weight best.canary best.total)
          then o
          else best)
        os

  -- Whether the floored count may be zero.
  abbrev pub zero_allowed : (spec_replicas desired_weight max_weight max_surge : ℤ) → Bool
  zero_allowed spec_replicas desired_weight max_weight max_surge =
      eqb_ℤ desired_weight max_weight
      || eqb_ℤ desired_weight (pos 0)
      || (eqb_ℤ spec_replicas (pos 1) && eqb_ℤ max_surge (pos 0))

  -- The options, from the rounded counts, the two ties and whether zero is allowed.
  unfoldable pub options_of :
      (spec_replicas max_surge ceil floor : ℤ) (tied surge_tied zero : Bool) → List CanaryOption
  options_of spec_replicas max_surge ceil floor tied surge_tied zero =
      let floor_allowed = not (eqb_ℤ floor (pos 0)) || zero in
      let surged = add32 spec_replicas (pos 1) in
      when (ltb_ℤ ceil spec_replicas || zero)
        ((record { canary = ceil; total = spec_replicas }) ∷ [])
      ++ (when (not tied && floor_allowed) ((record { canary = floor; total = spec_replicas }) ∷ [])
          ++ when (ltb_ℤ (pos 0) max_surge) (
              (record { canary = ceil; total = surged })
              ∷ when (not surge_tied && floor_allowed)
                  ((record { canary = floor; total = surged }) ∷ [])))

  -- The choice among the options; with none the stable ReplicaSet has all replicas.
  unfoldable pub choose : (spec_replicas desired_weight max_weight : ℤ) → List CanaryOption → ℤ × ℤ
  choose spec_replicas desired_weight max_weight [] = (pos 0, spec_replicas)
  choose spec_replicas desired_weight max_weight (o ∷ os) =
      let best = best_of desired_weight max_weight o os in
      (best.canary, sub32 best.total best.canary)

  unfoldable pub approximate_counts :
      (spec_replicas desired_weight max_weight max_surge : ℤ) → ℤ × ℤ
  unfolding choose options_of
  approximate_counts spec_replicas desired_weight max_weight max_surge =
      let weighted =
        fl.div (fl.of_int (mul32 spec_replicas desired_weight)) (fl.of_int max_weight) in
      if eqb_ℤ spec_replicas (pos 0)
      then (pos 0, pos 0)
      else choose spec_replicas desired_weight max_weight (
          options_of spec_replicas max_surge (fl.ceil weighted) (fl.floor weighted)
            (floor_ceiling_tied desired_weight max_weight spec_replicas)
            (floor_ceiling_tied desired_weight max_weight (add32 spec_replicas (pos 1)))
            (zero_allowed spec_replicas desired_weight max_weight max_surge))
