-- ===== src/Canary/Steps.antt =====
-- The current step, and what the steps up to it say of the weight and the scale.
pub mod Backwards
use intuit_argo_rollouts_dem.Prelude.{
  ℕ, zero, suc, Bool, true, false, Option, none, some, List, [], ◌∷◌, String, ℤ, pos, ◌&&◌, ◌||◌,
  str_eq, is_some, length, get_elem?, leb, if◌then◌else◌,
}
use intuit_argo_rollouts_dem.Rollout.{
  Rollout, CanaryStrategy, CanaryStep, SetCanaryScale, RolloutTrafficRouting,
}
use intuit_argo_rollouts_dem.Rollout.Defaults.{
  max_traffic_weight, get_abort_scale_down_delay_seconds_or_default,
}

abbrev pub steps_of : Option CanaryStrategy → List CanaryStep
steps_of none = []
steps_of (some c) = c.steps

abbrev pub index_or_zero : Option ℕ → ℕ
index_or_zero none = 0
index_or_zero (some i) = i

-- The step at the index, with the index, which is also given past the last step.
unfoldable pub step_at : List CanaryStep → ℕ → Option CanaryStep × Option ℕ
step_at [] i = (none, none)
step_at (s ∷ ss) i =
    if leb (length (s ∷ ss)) i then (none, some i) else (get_elem? (s ∷ ss) i, some i)

unfoldable pub get_current_canary_step : Rollout → Option CanaryStep × Option ℕ
unfolding step_at
get_current_canary_step ro =
    step_at (steps_of ro.spec.canary) (index_or_zero ro.status.current_step_index)

abbrev pub or_this {ℓ} : {A : Type ℓ} → Option A → Option A → Option A
or_this (some a) b = some a
or_this none b = b

abbrev pub and_then {ℓ κ} : {A : Type ℓ} {B : Type κ} → Option A → (A → Option B) → Option B
and_then none f = none
and_then (some a) f = f a

-- `for i := index; i >= 0; i--`: the first step from the index down of which `f` is something.
unfoldable pub find_back {ℓ} :
    {A : Type ℓ} → (CanaryStep → Option A) → List CanaryStep → ℕ → Option A
find_back f steps zero = and_then (get_elem? steps zero) f
find_back f steps (suc i) = or_this (and_then (get_elem? steps (suc i)) f) (find_back f steps i)

-- The loop, if there is a current step.
unfoldable pub from_current {ℓ} :
    {A : Type ℓ}
    → (CanaryStep → Option A)
    → List CanaryStep
    → Option CanaryStep × Option ℕ
    → Option A
from_current f steps (some step, some i) = find_back f steps i
from_current f steps _ = none

unfoldable pub weight_or_zero : Option ℤ → ℤ
weight_or_zero none = pos 0
weight_or_zero (some w) = w

unfoldable pub get_current_set_weight : Rollout → ℤ
unfolding get_current_canary_step from_current weight_or_zero
get_current_set_weight ro =
    let current = get_current_canary_step ro in
    if ro.status.abort
    then pos 0
    else if is_some current.0
    then weight_or_zero (from_current (λ s. s.set_weight) (steps_of ro.spec.canary) current)
    else max_traffic_weight ro

is_routed : Option CanaryStrategy → Bool
is_routed none = false
is_routed (some c) = is_some c.traffic_routing

unless_matching : Option SetCanaryScale → Option SetCanaryScale
unless_matching none = none
unless_matching (some s) = if s.match_traffic_weight then none else some s

unfoldable pub use_set_canary_scale : Rollout → Option SetCanaryScale
unfolding is_routed unless_matching get_current_canary_step from_current
use_set_canary_scale ro =
    let scale = unless_matching (
      from_current (λ s. s.set_canary_scale) (steps_of ro.spec.canary)
        (get_current_canary_step ro)) in
    if is_routed ro.spec.canary
    then (if ro.status.abort && is_some (get_abort_scale_down_delay_seconds_or_default ro).0
        then none
        else scale)
    else none

unfoldable pub get_current_experiment_step : Rollout → Option (List String)
unfolding get_current_canary_step from_current
get_current_experiment_step ro =
    from_current (λ s. s.experiment) (steps_of ro.spec.canary) (get_current_canary_step ro)

-- The replicas that a set-canary-scale step fixes, or the weight to scale by.
weight_of_scale : Rollout → Option ℤ → Option ℤ × ℤ
weight_of_scale ro none = (none, get_current_set_weight ro)
weight_of_scale ro (some w) = (none, w)

replicas_of_scale : Rollout → SetCanaryScale → Option ℤ → Option ℤ × ℤ
unfolding weight_of_scale
replicas_of_scale ro s (some n) = (some n, pos 0)
replicas_of_scale ro s none = weight_of_scale ro s.weight

by_scale : Rollout → Option SetCanaryScale → Option ℤ × ℤ
unfolding replicas_of_scale
by_scale ro none = (none, get_current_set_weight ro)
by_scale ro (some s) = replicas_of_scale ro s s.replicas

unfoldable pub get_canary_replicas_or_weight : Rollout → Option ℤ × ℤ
unfolding by_scale
get_canary_replicas_or_weight ro =
    if ro.status.promote_full
      || str_eq ro.status.stable_rs ""
      || str_eq ro.status.current_pod_hash ro.status.stable_rs
    then (none, max_traffic_weight ro)
    else by_scale ro (use_set_canary_scale ro)
