-- ===== src/Sync/Canary/Total.antt =====
-- The reconciliation of a canary's status gives a status.
use intuit_argo_rollouts_dem.Prelude.{
  ◌≡◌, refl, ◌∙◌, Bool, true, Option, none, some, String, ℕ, arith, is_some, Bool-cases, inl, inr,
}
use intuit_argo_rollouts_dem.Common.{Time, Library}
use intuit_argo_rollouts_dem.Rollout.{RolloutStatus}
use intuit_argo_rollouts_dem.Canary.Floats.{Float64}
use intuit_argo_rollouts_dem.Canary.Fenceposts.{OfPercent}
use intuit_argo_rollouts_dem.Pause.{clear_pause_conditions, remove_abort}
use intuit_argo_rollouts_dem.Context.{RolloutContext}
use intuit_argo_rollouts_dem.Sync.{should_full_promote, promote_stable}
use intuit_argo_rollouts_dem.Sync.Conditions.{calculate_rollout_conditions}
use intuit_argo_rollouts_dem.Sync.Canary.{
  pod_template_or_steps_changed, canary_base, unskipped, next_index, promoted, continued,
  next_canary_status, persisted, finish, sync_rollout_status_canary,
}

promoted-is_some :
    (c : RolloutContext) (s : RolloutStatus) (ok : Bool)
    → ok ≡ true
    → is_some (promoted (c, s, ok)) ≡ true
unfolding promoted
promoted-is_some c s ok h = rw h refl

promote_stable-ok :
    (c : RolloutContext) (s : RolloutStatus)
    → c.scales_workload ≡ true
    → (promote_stable c s).2 ≡ true
unfolding promote_stable
promote_stable-ok c s h = ground (arith, h)

unskipped-scales : (c : RolloutContext) → (unskipped c).scales_workload ≡ c.scales_workload
unfolding unskipped clear_pause_conditions remove_abort
unskipped-scales c = ground arith

module _ (lib : Library) (fl : Float64) (of_percent : OfPercent) (now : Time) where
  continued-is_some :
      (c : RolloutContext) (index : Option ℕ) (s : RolloutStatus) (reason : Option String)
      → c.scales_workload ≡ true
      → is_some (continued lib fl of_percent now c index s reason) ≡ true
  unfolding continued
  continued-is_some c index s none h = refl
  continued-is_some c index s (some r) h =
      promoted-is_some (promote_stable c s).0 (promote_stable c s).1 (promote_stable c s).2
        (promote_stable-ok c s h)

  next_canary_status-is_some :
      (c : RolloutContext)
      → c.scales_workload ≡ true
      → is_some (next_canary_status lib fl of_percent now c) ≡ true
  unfolding next_canary_status
  next_canary_status-is_some c h = elim (Bool-cases (pod_template_or_steps_changed c)) [
    | inl y ↦ rw y refl
    | inr n ↦ rw n (
        continued-is_some (unskipped c) (next_index c) (canary_base c)
          (should_full_promote (unskipped c) (canary_base c)) (unskipped-scales c ∙ h))
  ]

  finish-is_some :
      (o : Option (RolloutContext × RolloutStatus))
      → is_some o ≡ true
      → (s : RolloutStatus) × (finish lib fl of_percent now o ≡ some s)
  unfolding finish
  finish-is_some none h = absurd (ground (arith, h))
  finish-is_some (some (c, s)) h =
      let next = calculate_rollout_conditions now lib c s in
      (persisted lib fl of_percent now next.0 next.1, refl)

  -- The reconciliation gives a status, where a reference to a workload that is to be scaled down
  -- can be.
  pub sync_rollout_status_canary_total :
      (c : RolloutContext)
      → c.scales_workload ≡ true
      → (s : RolloutStatus) × (sync_rollout_status_canary lib fl of_percent now c ≡ some s)
  unfolding sync_rollout_status_canary
  sync_rollout_status_canary_total c h =
      finish-is_some (next_canary_status lib fl of_percent now c) (next_canary_status-is_some c h)
