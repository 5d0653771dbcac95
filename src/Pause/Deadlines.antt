-- ===== src/Pause/Deadlines.antt =====
-- A pause that is over stays over as time passes.
use intuit_argo_rollouts_dem.Prelude.{◌≡◌, true, Option, none, some, ℤ, ◌≤ℤ◌, arith}
use intuit_argo_rollouts_dem.Common.{Time, Library}
use intuit_argo_rollouts_dem.Rollout.{RolloutPause, BlueGreenStrategy, PauseCondition}
use intuit_argo_rollouts_dem.Pause.{
  PauseContext, passed, completed_blue_green_pause, completed_canary_pause_step,
}

passed_mono :
    (t u : Time) (seconds : ℤ) (c : Option PauseCondition)
    → t ≤ℤ u
    → passed t seconds c ≡ true
    → passed u seconds c ≡ true
unfolding passed
passed_mono t u seconds none h k = k
passed_mono t u seconds (some c) h k = ground arith

-- A canary pause step that is completed at some time is completed at every later time.
pub completed_canary_pause_step_mono :
    (lib : Library) (t u : Time) (p : PauseContext) (pause : RolloutPause)
    → t ≤ℤ u
    → completed_canary_pause_step lib t p pause ≡ true
    → completed_canary_pause_step lib u p pause ≡ true
unfolding completed_canary_pause_step
completed_canary_pause_step_mono lib t u p pause h k = ground arith

-- A blue-green pause that is completed at some time is completed at every later time.
pub completed_blue_green_pause_mono :
    (t u : Time) (p : PauseContext) (b : BlueGreenStrategy)
    → t ≤ℤ u
    → completed_blue_green_pause t p b ≡ true
    → completed_blue_green_pause u p b ≡ true
unfolding completed_blue_green_pause
completed_blue_green_pause_mono t u p b h k = ground arith
