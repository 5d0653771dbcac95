-- ===== src/Canary/Pausing/Examples.antt =====
-- Examples of pause steps.
use intuit_argo_rollouts_dem.Prelude.{◌≡◌, refl, true, false, none, some, [], pos, ◌+ℤ◌, ◌*ℤ◌}
use intuit_argo_rollouts_dem.Common.{Library, after}
use intuit_argo_rollouts_dem.Rollout.{Rollout, RolloutStatus, canary_pause_step}
use intuit_argo_rollouts_dem.Rollout.Sample.{rollout, status, pause_step, pause_of}
use intuit_argo_rollouts_dem.Pause.{
  PauseContext, is_aborted, get_pause_condition, duration_seconds, find_condition,
  calculate_pause_status, completed_canary_pause_step,
}
use intuit_argo_rollouts_dem.Canary.Steps.{get_current_canary_step}
use intuit_argo_rollouts_dem.Canary.Pausing.{reconcile_canary_pause}
use intuit_argo_rollouts_dem.Canary.Pausing.Begin.{
  reconcile_canary_pause-begins, reconcile_canary_pause-wait,
}

abbrev library : Library
library = record { int_value = λ s. pos 0; parse_duration = λ s. none; parse_int32 = λ s. none }

abbrev context_of : Rollout → PauseContext
context_of ro = record {
  rollout = ro;
  add_pause_reasons = [];
  remove_pause_reasons = [];
  should_clear = false;
  should_abort = false;
  should_unabort = false;
  abort_message = "";
}

abbrev going_status : RolloutStatus
going_status = record status { pause_conditions = []; controller_pause = false }

abbrev going : PauseContext
going = context_of (record rollout { status = going_status })

reconcile_canary_pause-begins_example :
    ((reconcile_canary_pause library going).0 ≡ true)
    × (find_condition canary_pause_step
          (calculate_pause_status
            (pos 500)
            (reconcile_canary_pause library going).1
            going_status).pause_conditions
        ≡ some (record { reason = canary_pause_step; start_time = pos 500 }))
reconcile_canary_pause-begins_example =
    reconcile_canary_pause-begins library going pause_step (pause_of (pos 30)) (pos 500)
      going_status refl refl (unfold get_current_canary_step in refl) refl refl refl refl
      (unfold is_aborted in refl) refl refl

reconcile_canary_pause-wait_example :
    completed_canary_pause_step library
      (pos 90_000_000_100)
      (context_of rollout)
      (pause_of (pos 30))
    ≡ after (pos 90_000_000_100) (pos 100 +ℤ pos 30 *ℤ pos 1_000_000_000)
reconcile_canary_pause-wait_example =
    reconcile_canary_pause-wait library (context_of rollout) pause_step (pause_of (pos 30))
      (pos 90_000_000_100) (pos 100) (pos 30) (unfold get_current_canary_step in refl) refl
      (unfold reconcile_canary_pause get_current_canary_step get_pause_condition duration_seconds in
        refl)
