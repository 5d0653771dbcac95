-- ===== src/Pause/Examples.antt =====
-- Examples of the pause context.
use intuit_argo_rollouts_dem.Prelude.{
  ◌≡◌, refl, true, false, none, some, [], ◌∷◌, ℤ, pos, ◌+ℤ◌, ◌*ℤ◌,
}
use intuit_argo_rollouts_dem.Common.{Library, from_int, from_string, IntOrString}
use intuit_argo_rollouts_dem.Rollout.{
  RolloutStatus, canary_pause_step, inconclusive_analysis, blue_green_pause, BlueGreenStrategy,
}
use intuit_argo_rollouts_dem.Rollout.Sample.{rollout, status, pause_of, paused_at}
use intuit_argo_rollouts_dem.Pause.{
  PauseContext, is_aborted, calculate_pause_status, completed_canary_pause_step,
  completed_blue_green_pause, find_condition, get_pause_condition, duration_seconds, has_add_pause,
  needs_blue_green_controller_pause,
}
use intuit_argo_rollouts_dem.Pause.Laws.{
  calculate_pause_status-abort, calculate_pause_status-reason,
}

abbrev int_or_zero : IntOrString → ℤ
int_or_zero (from_int z) = z
int_or_zero (from_string s) = pos 0

abbrev library : Library
library = record { int_value = int_or_zero; parse_duration = λ s. none; parse_int32 = λ s. none }

-- The reconciliation adds one reason.
abbrev adding : PauseContext
adding = record {
  rollout = rollout;
  add_pause_reasons = inconclusive_analysis ∷ [];
  remove_pause_reasons = [];
  should_clear = false;
  should_abort = false;
  should_unabort = false;
  abort_message = "";
}

abbrev aborting : PauseContext
aborting = record adding { should_abort = true }

abbrev waiting : PauseContext
waiting = record adding { add_pause_reasons = [] }

abbrev fresh_status : RolloutStatus
fresh_status = record status { pause_conditions = [] }

calculate_pause_status-abort_example :
    (calculate_pause_status (pos 500) aborting fresh_status).abort ≡ is_aborted aborting
calculate_pause_status-abort_example =
    (calculate_pause_status-abort (pos 500) aborting fresh_status refl).0

calculate_pause_status-reason_example :
    find_condition canary_pause_step
      (calculate_pause_status (pos 500) adding fresh_status).pause_conditions
    ≡ find_condition canary_pause_step (paused_at (pos 100) ∷ [])
calculate_pause_status-reason_example =
    calculate_pause_status-reason (pos 500) adding fresh_status canary_pause_step refl
      (unfold is_aborted in refl) refl refl

-- The pause of 30 seconds, which began at time 100, is over by 50 seconds later.
pause_is_over :
    completed_canary_pause_step library (pos 50_000_000_100) waiting (pause_of (pos 30)) ≡ true
pause_is_over =
    unfold completed_canary_pause_step get_pause_condition duration_seconds ◌+ℤ◌ ◌*ℤ◌ in refl

abbrev auto : BlueGreenStrategy
auto = record {
  active_service = "active";
  preview_service = "preview";
  preview_replica_count = none;
  auto_promotion_enabled = some true;
  auto_promotion_seconds = pos 30;
  max_unavailable = none;
  scale_down_delay_seconds = none;
  scale_down_delay_revision_limit = none;
  pre_promotion_analysis = none;
  post_promotion_analysis = none;
  abort_scale_down_delay_seconds = none;
}

abbrev promoting : PauseContext
promoting = record waiting {
  rollout = record rollout {
    status = record status {
      pause_conditions = record { reason = blue_green_pause; start_time = pos 100 } ∷ [];
    };
  };
}

promotion_is_over : completed_blue_green_pause (pos 50_000_000_100) promoting auto ≡ true
promotion_is_over =
    unfold completed_blue_green_pause has_add_pause needs_blue_green_controller_pause
      get_pause_condition ◌+ℤ◌ ◌*ℤ◌ in
    refl
