-- ===== src/Sync/Canary/Promotion.antt =====
-- When the stable ReplicaSet of a canary changes.
use intuit_argo_rollouts_dem.Prelude.{
  ◌≡◌, ◌⊎◌, inl, inr, refl, sym, ap, ◌∙◌, Bool, true, not, ◌&&◌, ◌||◌, Option, none, some, String,
  arith, is_some, eq_iff, if◌then◌else◌, Bool-cases, ℕ,
}
use mathlib.Core.Option.{some-injective}
use intuit_argo_rollouts_dem.Common.{Time, Library}
use intuit_argo_rollouts_dem.Rollout.{RolloutStatus, CanaryStrategy}
use intuit_argo_rollouts_dem.Canary.Floats.{Float64}
use intuit_argo_rollouts_dem.Canary.Fenceposts.{OfPercent}
use intuit_argo_rollouts_dem.Pause.{is_aborted, clear_pause_conditions, remove_abort}
use intuit_argo_rollouts_dem.Context.{RolloutContext, the_rollout}
use intuit_argo_rollouts_dem.Sync.{
  should_full_promote, promote_stable, switched, reset_rollout_status,
}
use intuit_argo_rollouts_dem.Sync.Reason.{is_promotable, should_full_promote-canary}
use intuit_argo_rollouts_dem.Sync.Canary.{
  pod_template_or_steps_changed, canary_base, restarted, aborted_status, unskipped, next_index,
  stepped, continued, next_canary_status, sync_rollout_status_canary,
}
use intuit_argo_rollouts_dem.Sync.Canary.Indexes.{finish-status, promoted-eq, core}

-- The stable set is that of before, or the current one after a promotion.
abbrev pub IsKept : String → Bool → RolloutStatus → Type 0
IsKept stable promotes s =
    (s.stable_rs ≡ stable) ⊎ ((s.stable_rs ≡ s.current_pod_hash) × (promotes ≡ true))

pub IsKept-core :
    (a b : String) (p q : Bool) (s t : RolloutStatus)
    → core s ≡ core t
    → a ≡ b
    → p ≡ q
    → IsKept a p t
    → IsKept b q s
IsKept-core a b p q s t h k l (inl e) = inl (ap (λ r. r.stable_rs) h ∙ e ∙ k)
IsKept-core a b p q s t h k l (inr (e, f)) =
    inr (ap (λ r. r.stable_rs) h ∙ e ∙ sym (ap (λ r. r.current_pod_hash) h), sym l ∙ f)

pub promote_stable-stable :
    (c : RolloutContext) (status : RolloutStatus)
    → (promote_stable c status).1.stable_rs ≡ (promote_stable c status).1.current_pod_hash
unfolding promote_stable switched
promote_stable-stable c status = ground (arith, eq_iff status.stable_rs status.current_pod_hash)

module _ (lib : Library) (fl : Float64) (of_percent : OfPercent) (now : Time) where
  stepped-stable :
      (c : RolloutContext) (index : Option ℕ) (status : RolloutStatus)
      → (stepped lib fl of_percent now c index status).1.stable_rs ≡ status.stable_rs
  unfolding stepped
  stepped-stable c index status = ground arith

  aborted_status-stable :
      (c : RolloutContext) (status : RolloutStatus)
      → (aborted_status c status).stable_rs ≡ status.stable_rs
  unfolding aborted_status
  aborted_status-stable c status = ground arith

  restarted-stable : (c : RolloutContext) → (restarted c).1.stable_rs ≡ (canary_base c).stable_rs
  unfolding restarted reset_rollout_status
  restarted-stable c = ground arith

  continued-IsKept :
      (d e : RolloutContext) (index : Option ℕ) (status s : RolloutStatus) (reason : Option String)
      → continued lib fl of_percent now d index status reason ≡ some (e, s)
      → IsKept status.stable_rs (is_some reason) s
  unfolding continued
  continued-IsKept d e index status s (some r) h =
      let (ok, same_context, same) =
        promoted-eq (promote_stable d status).0 e (promote_stable d status).1 s
          (promote_stable d status).2 h in
      inr (rw (sym same) (promote_stable-stable d status), refl)
  continued-IsKept d e index status s none h =
      let both =
        some-injective
          (if is_aborted d.pause
            then (d, aborted_status d status)
            else stepped lib fl of_percent now d index status)
          (e, s) h in
      inl (elim (Bool-cases (is_aborted d.pause)) [
        | inl a ↦ sym (ap (λ p. p.1.stable_rs) (rw a at both)) ∙ aborted_status-stable d status
        | inr a ↦ sym (ap (λ p. p.1.stable_rs) (rw a at both)) ∙ stepped-stable d index status
      ])

  next_canary_status-IsKept :
      (c e : RolloutContext) (s : RolloutStatus)
      → next_canary_status lib fl of_percent now c ≡ some (e, s)
      → IsKept
          (canary_base c).stable_rs
          (not (pod_template_or_steps_changed c)
            && is_some (should_full_promote (unskipped c) (canary_base c)))
          s
  unfolding next_canary_status
  next_canary_status-IsKept c e s h = elim (Bool-cases (pod_template_or_steps_changed c)) [
    | inl y ↦ inl (
        sym (ap (λ p. p.1.stable_rs) (some-injective (restarted c) (e, s) (rw y at h)))
        ∙ restarted-stable c)
    | inr n ↦ rw n (
        continued-IsKept (unskipped c) e (next_index c) (canary_base c) s
          (should_full_promote (unskipped c) (canary_base c)) (rw n at h))
  ]

  canary_base-stable :
      (c : RolloutContext) → (canary_base c).stable_rs ≡ (the_rollout c).status.stable_rs
  unfolding canary_base
  canary_base-stable c = refl

  unskipped-rollout : (c : RolloutContext) → the_rollout (unskipped c) ≡ the_rollout c
  unfolding unskipped clear_pause_conditions remove_abort
  unskipped-rollout c = ground arith

  -- The stable ReplicaSet that is sent is that of before, or the current one; the latter only where
  -- neither the template nor the steps have changed, and where there was no stable ReplicaSet, or
  -- the rollout is not aborted, the new ReplicaSet has the replicas of the spec available, and a
  -- full promotion is asked for, the rollback is within its window, or every step is completed.
  pub sync_rollout_status_canary-stable :
      (c : RolloutContext) (s : RolloutStatus) (strategy : CanaryStrategy)
      → (the_rollout c).spec.canary ≡ some strategy
      → sync_rollout_status_canary lib fl of_percent now c ≡ some s
      → IsKept
          (the_rollout c).status.stable_rs
          (not (pod_template_or_steps_changed c)
            && (not (is_some (unskipped c).stable_rs) || is_promotable (unskipped c) strategy))
          s
  unfolding sync_rollout_status_canary
  sync_rollout_status_canary-stable c s strategy e h =
      let (d, t, k, same) =
        finish-status lib fl of_percent now s (next_canary_status lib fl of_percent now c) h in
      let reason =
        should_full_promote-canary (unskipped c) (canary_base c) strategy
          (ap (λ ro. ro.spec.canary) (unskipped-rollout c) ∙ e) in
      IsKept-core (canary_base c).stable_rs (the_rollout c).status.stable_rs
        (not (pod_template_or_steps_changed c)
          && is_some (should_full_promote (unskipped c) (canary_base c)))
        (not (pod_template_or_steps_changed c)
          && (not (is_some (unskipped c).stable_rs) || is_promotable (unskipped c) strategy))
        s t same (canary_base-stable c)
        (ap (λ b. not (pod_template_or_steps_changed c) && b) reason)
        (next_canary_status-IsKept c d t k)
