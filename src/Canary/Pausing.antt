-- ===== src/Canary/Pausing.antt =====
-- rollout/canary.go: reconcileCanaryPause. The result is whether the canary waits, the pause context
-- after the call, and what checkEnqueueRolloutDuringWait is called with: a start and seconds.
pub mod Begin
mod Examples
use intuit_argo_rollouts_dem.Prelude.{
  Bool, true, false, Option, none, some, ℤ, is_some, if◌then◌else◌,
}
use intuit_argo_rollouts_dem.Common.{Time, Library}
use intuit_argo_rollouts_dem.Rollout.{CanaryStep, RolloutPause, PauseCondition, canary_pause_step}
use intuit_argo_rollouts_dem.Pause.{
  PauseContext, add_pause_condition, get_pause_condition, duration_seconds,
}
use intuit_argo_rollouts_dem.Canary.Steps.{get_current_canary_step}

abbrev pub Pausing : Type 0
Pausing = Bool × PauseContext × Option (Time × ℤ)

abbrev idle : PauseContext → Pausing
idle p = (false, p, none)

module _ (lib : Library) where
  at_condition : PauseContext → RolloutPause → Option PauseCondition → Pausing
  at_condition p pause none = (
    true,
    if p.rollout.status.controller_pause then p else add_pause_condition canary_pause_step p,
    none,
  )
  at_condition p pause (some cond) = (
    true,
    p,
    if is_some pause.duration
        then some (cond.start_time, duration_seconds lib pause.duration)
        else none,
  )

  at_pause : PauseContext → Option RolloutPause → Pausing
  unfolding at_condition
  at_pause p none = idle p
  at_pause p (some pause) = at_condition p pause (get_pause_condition p.rollout canary_pause_step)

  -- Without steps, or past the last, there is no current step.
  at_step : PauseContext → Option CanaryStep → Pausing
  unfolding at_pause
  at_step p none = idle p
  at_step p (some step) = at_pause p step.pause

  unfoldable pub reconcile_canary_pause : PauseContext → Pausing
  unfolding at_step
  reconcile_canary_pause p =
      if p.rollout.spec.paused
      then idle p
      else (if p.rollout.status.promote_full
          then idle p
          else at_step p (get_current_canary_step p.rollout).0)
