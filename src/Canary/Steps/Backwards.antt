-- ===== src/Canary/Steps/Backwards.antt =====
-- The loop backwards over the steps finds what the last of the steps so far says.
use intuit_argo_rollouts_dem.Prelude.{
  ℕ, zero, suc, ◌≡◌, ◌<◌, refl, sym, ◌∙◌, ap, true, Option, none, some, List, [], ◌∷◌, ℤ, pos, ◌≤ℤ◌,
  length, get_elem?, is_some, All, arith, ltb, Option-cases, inl, inr, if◌then◌else◌,
}
use intuit_argo_rollouts_dem.Rollout.{Rollout, CanaryStep}
use intuit_argo_rollouts_dem.Rollout.Defaults.{max_traffic_weight}
use intuit_argo_rollouts_dem.Canary.Steps.{
  steps_of, index_or_zero, or_this, and_then, step_at, get_current_canary_step, find_back,
  from_current, weight_or_zero, get_current_set_weight,
}

-- What the last of the first `n` steps that says something says.
abbrev pub last_said {ℓ} : {A : Type ℓ} → (CanaryStep → Option A) → ℕ → List CanaryStep → Option A
last_said f zero steps = none
last_said f (suc n) [] = none
last_said f (suc n) (s ∷ ss) = or_this (last_said f n ss) (f s)

or_this_assoc {ℓ} :
    {A : Type ℓ} (x y z : Option A) → or_this (or_this x y) z ≡ or_this x (or_this y z)
or_this_assoc none y z = refl
or_this_assoc (some x) y z = refl

or_this-none {ℓ} : {A : Type ℓ} (x : Option A) → or_this x none ≡ x
or_this-none none = refl
or_this-none (some x) = refl

module _ {ℓ} {A : Type ℓ} (f : CanaryStep → Option A) where
  last_said-nil : (n : ℕ) → last_said f n [] ≡ none
  last_said-nil zero = refl
  last_said-nil (suc n) = refl

  last_said-suc :
      (n : ℕ) (steps : List CanaryStep)
      → last_said f (suc n) steps ≡ or_this (and_then (get_elem? steps n) f) (last_said f n steps)
  last_said-suc n [] = sym (last_said-nil n)
  last_said-suc zero (s ∷ ss) = sym (or_this-none (f s))
  last_said-suc (suc n) (s ∷ ss) =
      ap (λ o. or_this o (f s)) (last_said-suc n ss)
      ∙ or_this_assoc (and_then (get_elem? ss n) f) (last_said f n ss) (f s)

  find_back-last_said :
      (i : ℕ) (steps : List CanaryStep) → find_back f steps i ≡ last_said f (suc i) steps
  unfolding find_back
  find_back-last_said zero [] = refl
  find_back-last_said zero (s ∷ ss) = refl
  find_back-last_said (suc i) steps =
      ap (or_this (and_then (get_elem? steps (suc i)) f)) (find_back-last_said i steps)
      ∙ sym (last_said-suc (suc i) steps)

get_elem?-lt {ℓ} :
    {A : Type ℓ} (xs : List A) (i : ℕ) → i < length xs → is_some (get_elem? xs i) ≡ true
get_elem?-lt [] i h = elim h [ ]
get_elem?-lt (x ∷ xs) zero h = refl
get_elem?-lt (x ∷ xs) (suc i) h = get_elem?-lt xs i (omega arith)

abbrev weight_said : Option ℤ → ℤ
weight_said none = pos 0
weight_said (some w) = w

-- The weight by the steps and the index alone.
abbrev pub weight_by_steps : ℕ → List CanaryStep → ℤ
weight_by_steps i steps = weight_said (last_said (λ s. s.set_weight) (suc i) steps)

weight_at :
    (steps : List CanaryStep) (i : ℕ) (full : ℤ)
    → (if is_some (step_at steps i).0
        then weight_or_zero (from_current (λ s. s.set_weight) steps (step_at steps i))
        else full)
      ≡ (if ltb i (length steps) then weight_by_steps i steps else full)
unfolding step_at from_current weight_or_zero
weight_at [] i full = ground arith
weight_at (s ∷ ss) i full = ground (
  arith,
  get_elem?-lt (s ∷ ss) i,
  find_back-last_said (λ (s : CanaryStep). s.set_weight) i (s ∷ ss),
)

-- The current weight is 0 for an aborted rollout, the maximum past the last step, and otherwise what
-- the last set-weight step up to and including the current step says, or 0 if there is none.
pub get_current_set_weight_lem :
    (ro : Rollout)
    → let steps = steps_of ro.spec.canary in
      let i = index_or_zero ro.status.current_step_index in
      get_current_set_weight ro ≡ (
        if ro.status.abort
        then pos 0
        else if ltb i (length steps)
        then weight_by_steps i steps
        else max_traffic_weight ro)
unfolding get_current_set_weight get_current_canary_step
get_current_set_weight_lem ro =
    ap (λ w. if ro.status.abort then pos 0 else w)
      (weight_at (steps_of ro.spec.canary) (index_or_zero ro.status.current_step_index)
        (max_traffic_weight ro))

-- Every set-weight step is between 0 and a maximum: what the validation of a rollout accepts.
abbrev pub IsWeighted : ℤ → CanaryStep → Type 0
IsWeighted full s = (w : ℤ) → s.set_weight ≡ some w → (pos 0 ≤ℤ w) × (w ≤ℤ full)

weight_by_steps_bounds :
    (n : ℕ) (steps : List CanaryStep) (full : ℤ)
    → pos 0 ≤ℤ full
    → All (IsWeighted full) steps
    → let w = weight_said (last_said (λ s. s.set_weight) n steps) in (pos 0 ≤ℤ w) × (w ≤ℤ full)
weight_by_steps_bounds zero steps full h all = (omega arith, h)
weight_by_steps_bounds (suc n) [] full h all = (omega arith, h)
weight_by_steps_bounds (suc n) (s ∷ ss) full h (own, all) =
    elim (Option-cases (last_said (λ x. x.set_weight) n ss)) [
      | inr (w, e) ↦ rw e (rw e at (weight_by_steps_bounds n ss full h all))
      | inl e ↦ rw e (own_weight s.set_weight own)
    ]
  where
    own_weight :
        (o : Option ℤ)
        → ((w : ℤ) → o ≡ some w → (pos 0 ≤ℤ w) × (w ≤ℤ full))
        → (pos 0 ≤ℤ weight_said o) × (weight_said o ≤ℤ full)
    own_weight none k = (omega arith, h)
    own_weight (some w) k = k w refl

-- If every set-weight step is between 0 and the maximum weight, so is the current weight.
pub get_current_set_weight_bounds :
    (ro : Rollout)
    → pos 0 ≤ℤ max_traffic_weight ro
    → All (IsWeighted (max_traffic_weight ro)) (steps_of ro.spec.canary)
    → (pos 0 ≤ℤ get_current_set_weight ro) × (get_current_set_weight ro ≤ℤ max_traffic_weight ro)
get_current_set_weight_bounds ro h all = rw (get_current_set_weight_lem ro) (
    ground (
      arith,
      weight_by_steps_bounds (suc (index_or_zero ro.status.current_step_index))
          (steps_of ro.spec.canary) (max_traffic_weight ro) h all,
    ))
