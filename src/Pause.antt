-- ===== src/Pause.antt =====
-- rollout/pause.go: the pause context, which gathers what a reconciliation decides about pauses and
-- aborts, and the status that it computes in the end. The clock is read as `now`.
pub mod Laws
pub mod Deadlines
mod Examples
use intuit_argo_rollouts_dem.Prelude.{
  Bool, true, false, not, ◌&&◌, ◌||◌, Option, none, some, String, List, [], ◌∷◌, ◌++◌, ℤ, pos, ◌+ℤ◌,
  ◌-ℤ◌, ◌*ℤ◌, int32, ltb_ℤ, eqb_ℤ, ◌==◌, ℕ, is_some, if◌then◌else◌,
}
use intuit_argo_rollouts_dem.Common.{
  Time, Duration, IntOrString, from_int, from_string, Library, after, whole_seconds,
}
use intuit_argo_rollouts_dem.Rollout.{
  Rollout, RolloutStatus, RolloutPause, BlueGreenStrategy, PauseReason, inconclusive_analysis,
  inconclusive_experiment, canary_pause_step, blue_green_pause, PauseCondition,
}

pub record PauseContext : Type 0 where
  pub rollout : Rollout
  pub add_pause_reasons : List PauseReason
  pub remove_pause_reasons : List PauseReason
  pub should_clear : Bool
  pub should_abort : Bool
  pub should_unabort : Bool
  pub abort_message : String

nonempty : List PauseReason → Bool
nonempty [] = false
nonempty (r ∷ rs) = true

unfoldable pub has_add_pause : PauseContext → Bool
unfolding nonempty
has_add_pause p = nonempty p.add_pause_reasons

unfoldable pub is_aborted : PauseContext → Bool
is_aborted p = if p.should_unabort then false else p.should_abort || p.rollout.status.abort

unfoldable pub add_abort : String → PauseContext → PauseContext
add_abort message p = record p { should_abort = true; abort_message = message }

unfoldable pub remove_abort : PauseContext → PauseContext
remove_abort p = record p { should_unabort = true }

unfoldable pub add_pause_condition : PauseReason → PauseContext → PauseContext
add_pause_condition reason p = record p { add_pause_reasons = p.add_pause_reasons ++ reason ∷ [] }

unfoldable pub remove_pause_condition : PauseReason → PauseContext → PauseContext
remove_pause_condition reason p = record p {
  remove_pause_reasons = p.remove_pause_reasons ++ reason ∷ [];
}

unfoldable pub clear_pause_conditions : PauseContext → PauseContext
clear_pause_conditions p = record p { should_clear = true }

abbrev pub reason_code : PauseReason → ℕ
reason_code inconclusive_analysis = 0
reason_code inconclusive_experiment = 1
reason_code canary_pause_step = 2
reason_code blue_green_pause = 3

abbrev pub same : PauseReason → PauseReason → Bool
same p q = reason_code p == reason_code q

-- Membership in the maps `statusToRemove` and `pauseAlreadyExists`.
abbrev pub is_listed : PauseReason → List PauseReason → Bool
is_listed q [] = false
is_listed q (r ∷ rs) = same r q || is_listed q rs

abbrev pub has_reason : PauseReason → List PauseCondition → Bool
has_reason q [] = false
has_reason q (c ∷ cs) = same c.reason q || has_reason q cs

-- The loop that keeps the conditions which are not removed.
unfoldable pub kept : List PauseReason → List PauseCondition → List PauseCondition
kept removed [] = []
kept removed (c ∷ cs) = if is_listed c.reason removed then kept removed cs else c ∷ kept removed cs

-- The loop that adds the reasons which did not exist before.
unfoldable pub added : Time → List PauseCondition → List PauseReason → List PauseCondition
added now old [] = []
added now old (r ∷ rs) =
    if has_reason r old
    then added now old rs
    else (record { reason = r; start_time = now }) ∷ added now old rs

is_nil : List PauseCondition → Bool
is_nil [] = true
is_nil (c ∷ cs) = false

first_time : Time → Option Time → Time
first_time now none = now
first_time now (some t) = t

-- The conditions and the controller pause of a context that neither aborts nor clears.
unfoldable pub pause_status : Time → PauseContext → RolloutStatus → RolloutStatus
unfolding is_nil kept added
pause_status now p status =
    let old = p.rollout.status.pause_conditions in
    let fresh = added now old p.add_pause_reasons in
    let conditions = kept p.remove_pause_reasons old ++ fresh in
    if is_nil conditions then status else record status {
      controller_pause = if is_nil fresh then p.rollout.status.controller_pause else true;
      pause_conditions = conditions;
    }

unfoldable pub calculate_pause_status : Time → PauseContext → RolloutStatus → RolloutStatus
unfolding first_time
calculate_pause_status now p status =
    let aborted = record status {
      abort = true;
      aborted_at = some (first_time now p.rollout.status.aborted_at);
    } in
    let going = record status { abort = false; aborted_at = none } in
    if p.should_abort
    then aborted
    else if not p.should_unabort && p.rollout.status.abort
    then aborted
    else if p.should_clear
    then going
    else pause_status now p going

-- The loop of getPauseCondition.
unfoldable pub find_condition : PauseReason → List PauseCondition → Option PauseCondition
find_condition q [] = none
find_condition q (c ∷ cs) = if same c.reason q then some c else find_condition q cs

unfoldable pub get_pause_condition : Rollout → PauseReason → Option PauseCondition
unfolding find_condition
get_pause_condition ro q = find_condition q ro.status.pause_conditions

is_false : Option Bool → Bool
is_false (some false) = true
is_false _ = false

unfoldable pub needs_blue_green_controller_pause : BlueGreenStrategy → Bool
unfolding is_false
needs_blue_green_controller_pause b =
    if is_false b.auto_promotion_enabled then true else ltb_ℤ (pos 0) b.auto_promotion_seconds

abbrev second : ℤ
second = pos 1_000_000_000

passed : Time → ℤ → Option PauseCondition → Bool
passed now seconds none = false
passed now seconds (some c) = after now (c.start_time +ℤ seconds *ℤ second)

-- `b` is the blue-green strategy, which the callers have checked to be there.
unfoldable pub completed_blue_green_pause : Time → PauseContext → BlueGreenStrategy → Bool
unfolding is_false passed
completed_blue_green_pause now p b =
    let condition = get_pause_condition p.rollout blue_green_pause in
    if has_add_pause p
    then false
    else if p.rollout.status.blue_green.scale_up_preview_check_point
    then true
    else if not (needs_blue_green_controller_pause b)
    then true
    else if not (is_false b.auto_promotion_enabled)
    then (if eqb_ℤ b.auto_promotion_seconds (pos 0)
        then true
        else passed now b.auto_promotion_seconds condition)
    else if p.rollout.status.controller_pause
    then not (is_some condition)
    else false

module _ (lib : Library) where
  -- A text that is no number is a duration; -1 where it is neither.
  seconds_of_text : Option ℤ → Option Duration → ℤ
  seconds_of_text (some s) d = int32 s
  seconds_of_text none (some d) = int32 (whole_seconds d)
  seconds_of_text none none = pos 0 -ℤ pos 1

  unfoldable pub duration_seconds : Option IntOrString → ℤ
  unfolding seconds_of_text
  duration_seconds none = pos 0
  duration_seconds (some (from_string s)) =
      seconds_of_text (lib.parse_int32 s) (lib.parse_duration s)
  duration_seconds (some (from_int n)) = n

  unfoldable pub completed_canary_pause_step : Time → PauseContext → RolloutPause → Bool
  unfolding passed
  completed_canary_pause_step now p pause =
      let condition = get_pause_condition p.rollout canary_pause_step in
      if p.rollout.status.controller_pause && not (is_some condition)
      then true
      else if is_some pause.duration
      then passed now (duration_seconds pause.duration) condition
      else false
