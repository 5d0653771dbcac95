-- ===== src/Canary/Pausing/Begin.antt =====
-- How a pause step begins and what it waits for.
use intuit_argo_rollouts_dem.Prelude.{
  ◌≡◌, refl, true, false, none, some, List, [], ◌∷◌, ◌++◌, ℤ, pos, ◌+ℤ◌, ◌*ℤ◌, arith,
}
use intuit_argo_rollouts_dem.Common.{Time, Library, after}
use intuit_argo_rollouts_dem.Rollout.{
  CanaryStep, RolloutPause, RolloutStatus, PauseReason, canary_pause_step,
}
use intuit_argo_rollouts_dem.Pause.{
  PauseContext, add_pause_condition, get_pause_condition, find_condition, is_aborted, is_listed,
  has_reason, calculate_pause_status, completed_canary_pause_step,
}
use intuit_argo_rollouts_dem.Pause.Laws.{calculate_pause_status-reason, find_condition-none}
use intuit_argo_rollouts_dem.Canary.Steps.{get_current_canary_step}
use intuit_argo_rollouts_dem.Canary.Pausing.{reconcile_canary_pause}

is_listed-last : (q : PauseReason) (xs : List PauseReason) → is_listed q (xs ++ (q ∷ [])) ≡ true
is_listed-last q [] = ground arith
is_listed-last q (x ∷ xs) = ground (arith, is_listed-last q xs)

module _ (lib : Library) (p : PauseContext) (step : CanaryStep) (pause : RolloutPause) where
  -- In a pause step that the rollout is not paused for and was not resumed from, the reconciliation
  -- adds the reason.
  adds_reason :
      p.rollout.spec.paused ≡ false
      → p.rollout.status.promote_full ≡ false
      → (get_current_canary_step p.rollout).0 ≡ some step
      → step.pause ≡ some pause
      → has_reason canary_pause_step p.rollout.status.pause_conditions ≡ false
      → p.rollout.status.controller_pause ≡ false
      → reconcile_canary_pause lib p ≡ (true, add_pause_condition canary_pause_step p, none)
  unfolding reconcile_canary_pause get_pause_condition
  adds_reason a b c d e f =
      let no = find_condition-none canary_pause_step p.rollout.status.pause_conditions e in
      ground (arith, no)

  -- In a pause step that the rollout is not paused for and was not resumed from, a reconciliation that
  -- neither aborts nor clears pauses the rollout: the status that it computes has the condition of the
  -- step, which begins now.
  pub reconcile_canary_pause-begins :
      (now : Time) (status : RolloutStatus)
      → p.rollout.spec.paused ≡ false
      → p.rollout.status.promote_full ≡ false
      → (get_current_canary_step p.rollout).0 ≡ some step
      → step.pause ≡ some pause
      → has_reason canary_pause_step p.rollout.status.pause_conditions ≡ false
      → p.rollout.status.controller_pause ≡ false
      → p.should_abort ≡ false
      → is_aborted p ≡ false
      → p.should_clear ≡ false
      → status.pause_conditions ≡ []
      → let (waits, p', wait) = reconcile_canary_pause lib p in
        (waits ≡ true)
        × (find_condition canary_pause_step (calculate_pause_status now p' status).pause_conditions
            ≡ some (record { reason = canary_pause_step; start_time = now }))
  unfolding add_pause_condition is_aborted
  reconcile_canary_pause-begins now status a b c d e f g h i k =
      let p' = add_pause_condition canary_pause_step p in
      let listed = is_listed-last canary_pause_step p.add_pause_reasons in
      let paused = calculate_pause_status-reason now p' status canary_pause_step g h i k in
      rw (adds_reason a b c d e f) (refl, ground (arith, paused, listed))

  -- A pause step waits for exactly the time that the reconciliation asks to be called back at: if
  -- it asks for some seconds after a start, the step is completed at the times after that, and at
  -- no other.
  pub reconcile_canary_pause-wait :
      (now start : Time) (seconds : ℤ)
      → (get_current_canary_step p.rollout).0 ≡ some step
      → step.pause ≡ some pause
      → (reconcile_canary_pause lib p).2 ≡ some (start, seconds)
      → completed_canary_pause_step lib now p pause
        ≡ after now (start +ℤ seconds *ℤ pos 1_000_000_000)
  unfolding reconcile_canary_pause completed_canary_pause_step
  reconcile_canary_pause-wait now start seconds c d e = ground arith
