-- ===== src/Canary/Fenceposts.antt =====
-- resolveFenceposts, MaxSurge and MaxUnavailable of utils/replicaset/replicaset.go. The parameter is
-- `intstr.GetValueFromIntOrPercent value total roundUp`, none where it returns an error.
use intuit_argo_rollouts_dem.Prelude.{
  Bool, true, false, ◌&&◌, Option, none, some, ℤ, pos, int32, eqb_ℤ, ltb_ℤ, if◌then◌else◌,
}
use intuit_argo_rollouts_dem.Common.{IntOrString}
use intuit_argo_rollouts_dem.Rollout.{Rollout, CanaryStrategy}
use intuit_argo_rollouts_dem.Rollout.Defaults.{
  get_replicas_or_default, get_max_surge_or_default, get_max_unavailable_or_default,
}

abbrev pub OfPercent : Type 0
OfPercent = IntOrString → ℤ → Bool → Option ℤ

module _ (of_percent : OfPercent) where
  -- Both values found: the pair as int32, where two zeros make one pod unavailable.
  resolved : (surge unavailable : ℤ) → ℤ × ℤ
  resolved surge unavailable =
      if eqb_ℤ surge (pos 0) && eqb_ℤ unavailable (pos 0)
      then (int32 surge, int32 (pos 1))
      else (int32 surge, int32 unavailable)

  resolve_both : Option ℤ → Option ℤ → Option (ℤ × ℤ)
  unfolding resolved
  resolve_both (some surge) (some unavailable) = some (resolved surge unavailable)
  resolve_both _ _ = none

  -- None is the result with an error, whose two values are zero.
  unfoldable pub resolve_fenceposts :
      (max_surge max_unavailable : IntOrString) (desired : ℤ) → Option (ℤ × ℤ)
  unfolding resolve_both
  resolve_fenceposts max_surge max_unavailable desired =
      resolve_both (of_percent max_surge desired true) (of_percent max_unavailable desired false)

  both_or_zero : Option (ℤ × ℤ) → ℤ × ℤ
  both_or_zero none = (pos 0, pos 0)
  both_or_zero (some p) = p

  fenceposts : Rollout → ℤ × ℤ
  unfolding both_or_zero
  fenceposts ro = both_or_zero (
      resolve_fenceposts (get_max_surge_or_default ro) (get_max_unavailable_or_default ro)
        (get_replicas_or_default ro.spec.replicas))

  surge_for : Rollout → Option CanaryStrategy → ℤ
  unfolding fenceposts
  surge_for ro none = pos 0
  surge_for ro (some c) = (fenceposts ro).0

  unfoldable pub max_surge : Rollout → ℤ
  unfolding surge_for
  max_surge ro = surge_for ro ro.spec.canary

  value_or_zero : Option ℤ → ℤ
  value_or_zero none = pos 0
  value_or_zero (some n) = n

  unavailable_for : Rollout → Option CanaryStrategy → ℤ
  unfolding fenceposts value_or_zero
  unavailable_for ro (some c) = (fenceposts ro).1
  unavailable_for ro none = int32 (
      value_or_zero (
        of_percent (get_max_unavailable_or_default ro) (get_replicas_or_default ro.spec.replicas)
          false))

  unfoldable pub max_unavailable : Rollout → ℤ
  unfolding unavailable_for
  max_unavailable ro =
      let replicas = get_replicas_or_default ro.spec.replicas in
      let unavailable = unavailable_for ro ro.spec.canary in
      if eqb_ℤ replicas (pos 0)
      then pos 0
      else (if ltb_ℤ replicas unavailable then replicas else unavailable)
