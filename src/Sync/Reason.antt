-- ===== src/Sync/Reason.antt =====
-- When a canary is promoted in full.
use intuit_argo_rollouts_dem.Prelude.{
  ◌≡◌, refl, sym, ap, ◌∙◌, Bool, true, not, ◌&&◌, ◌||◌, Option, none, some, str_eq, length, is_some,
  arith, Bool-cases, inl, inr,
}
use mathlib.Core.Path.{subst}
use intuit_argo_rollouts_dem.Rollout.{RolloutStatus, CanaryStrategy, BlueGreenStrategy}
use intuit_argo_rollouts_dem.Rollout.Defaults.{get_replicas_or_default}
use intuit_argo_rollouts_dem.Canary.Steps.{get_current_canary_step}
use intuit_argo_rollouts_dem.Pause.{is_aborted}
use intuit_argo_rollouts_dem.Context.{RolloutContext, the_rollout, are_targets_verified}
use intuit_argo_rollouts_dem.Sync.{
  blue_green_promotion, has_available, completed_all_steps, canary_promotion, strategy_promotion,
  should_full_promote, is_rollback_within_window,
}

-- The new ReplicaSet is available, and the promotion or a rollback skips the steps or they are
-- completed.
abbrev pub is_promotable : RolloutContext → CanaryStrategy → Bool
is_promotable c strategy =
    let ro = the_rollout c in
    not (is_aborted c.pause)
    && has_available (get_replicas_or_default ro.spec.replicas) c.new_rs
    && (ro.status.promote_full
        || is_rollback_within_window c
        || completed_all_steps (length strategy.steps) (get_current_canary_step ro).1)

strategy_promotion-canary :
    (c : RolloutContext) (status : RolloutStatus) (b : Option BlueGreenStrategy)
    (strategy : CanaryStrategy)
    → is_some (strategy_promotion c status (some strategy) b) ≡ is_promotable c strategy
unfolding strategy_promotion canary_promotion
strategy_promotion-canary c status b strategy = ground arith

pub should_full_promote-canary :
    (c : RolloutContext) (status : RolloutStatus) (strategy : CanaryStrategy)
    → (the_rollout c).spec.canary ≡ some strategy
    → is_some (should_full_promote c status)
      ≡ (not (is_some c.stable_rs) || is_promotable c strategy)
unfolding should_full_promote
should_full_promote-canary c status strategy e = elim (Bool-cases (is_some c.stable_rs)) [
  | inl y ↦ rw y (
      subst
        (λ o.
          is_some (strategy_promotion c status o (the_rollout c).spec.blue_green)
          ≡ is_promotable c strategy)
        (sym e) (strategy_promotion-canary c status (the_rollout c).spec.blue_green strategy))
  | inr n ↦ rw n refl
]

-- The active service has no ReplicaSet yet, or selects the current one, with its targets verified.
abbrev pub is_cut_over : RolloutContext → RolloutStatus → Bool
is_cut_over c status =
    str_eq status.blue_green.active_selector ""
    || (str_eq status.blue_green.active_selector status.current_pod_hash && are_targets_verified c)

strategy_promotion-blue_green :
    (c : RolloutContext) (status : RolloutStatus) (b : BlueGreenStrategy)
    → is_some (strategy_promotion c status none (some b)) ≡ true
    → is_cut_over c status ≡ true
unfolding strategy_promotion blue_green_promotion
strategy_promotion-blue_green c status b h = ground (arith, h)

pub should_full_promote-blue_green :
    (c : RolloutContext) (status : RolloutStatus) (b : BlueGreenStrategy)
    → (the_rollout c).spec.canary ≡ none
    → (the_rollout c).spec.blue_green ≡ some b
    → is_some (should_full_promote c status) ≡ true
    → not (is_some c.stable_rs) || is_cut_over c status ≡ true
unfolding should_full_promote
should_full_promote-blue_green c status b e f h = elim (Bool-cases (is_some c.stable_rs)) [
  | inr n ↦ rw n refl
  | inl y ↦ rw y (
      strategy_promotion-blue_green c status b (
        ap (λ o. is_some (strategy_promotion c status none o)) (sym f)
        ∙ ap (λ o. is_some (strategy_promotion c status o (the_rollout c).spec.blue_green)) (sym e)
        ∙ (rw y at h)))
]
