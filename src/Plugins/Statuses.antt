-- ===== src/Plugins/Statuses.antt =====
-- rollout/stepplugin.go: the list of the statuses of step plugins, at most one for each step and
-- operation.
pub mod Laws
use intuit_argo_rollouts_dem.Prelude.{
  ℕ, Bool, true, false, not, ◌&&◌, ◌||◌, ◌==◌, Option, none, some, List, [], ◌∷◌, is_some,
  if◌then◌else◌,
}
use intuit_argo_rollouts_dem.Rollout.{
  StepPluginOperation, run_operation, terminate_operation, abort_operation, StepPluginPhase,
  plugin_running, plugin_successful, plugin_failed, plugin_error, plugin_unset, StepPluginStatus,
}

abbrev pub operation_code : StepPluginOperation → ℕ
operation_code run_operation = 0
operation_code terminate_operation = 1
operation_code abort_operation = 2

abbrev pub same_operation : StepPluginOperation → StepPluginOperation → Bool
same_operation a b = operation_code a == operation_code b

abbrev pub phase_code : StepPluginPhase → ℕ
phase_code plugin_running = 0
phase_code plugin_successful = 1
phase_code plugin_failed = 2
phase_code plugin_error = 3
phase_code plugin_unset = 4

abbrev pub same_phase : StepPluginPhase → StepPluginPhase → Bool
same_phase a b = phase_code a == phase_code b

-- Whether a status is that of a step and an operation.
abbrev pub is_of : ℕ → StepPluginOperation → StepPluginStatus → Bool
is_of index operation s = s.index == index && same_operation s.operation operation

unfoldable pub find_current_step_status :
    List StepPluginStatus → ℕ → StepPluginOperation → Option StepPluginStatus
find_current_step_status [] index operation = none
find_current_step_status (s ∷ ss) index operation =
    if is_of index operation s then some s else find_current_step_status ss index operation

-- The list after the update, and whether the phase has changed.
unfoldable pub update_step_plugin_status :
    List StepPluginStatus → StepPluginStatus → List StepPluginStatus × Bool
update_step_plugin_status [] new = (new ∷ [], true)
update_step_plugin_status (s ∷ ss) new =
    let rest = update_step_plugin_status ss new in
    if is_of new.index new.operation s
    then (new ∷ ss, not (same_phase s.phase new.phase))
    else (s ∷ rest.0, rest.1)

-- The phase of a run, and whether its step was terminated or aborted.
completed_run : (stopped : Bool) → Option StepPluginStatus → Bool
completed_run stopped none = false
completed_run stopped (some s) =
    s.disabled
    || (stopped && same_phase s.phase plugin_running)
    || same_phase s.phase plugin_failed
    || same_phase s.phase plugin_successful

unfoldable pub is_step_plugin_completed : (has_error : Bool) → List StepPluginStatus → ℕ → Bool
unfolding completed_run
is_step_plugin_completed has_error ss index =
    if has_error
    then false
    else completed_run
        (is_some (find_current_step_status ss index terminate_operation)
          || is_some (find_current_step_status ss index abort_operation))
        (find_current_step_status ss index run_operation)

-- What the loop from the last status down says: to look further, or to return.
pub data Search : Type 0 where
  keep_looking : Search
  stop_with : Option ℕ → Search

search_at : StepPluginStatus → Search
search_at s =
    if same_operation s.operation terminate_operation && same_phase s.phase plugin_successful
    then stop_with none
    else (if same_operation s.operation run_operation && same_phase s.phase plugin_running
        then stop_with (some s.index)
        else keep_looking)

or_search : StepPluginStatus → Search → Search
unfolding search_at
or_search s keep_looking = search_at s
or_search s (stop_with r) = stop_with r

search : List StepPluginStatus → Search
unfolding or_search
search [] = keep_looking
search (s ∷ ss) = or_search s (search ss)

found : Search → Option ℕ
found keep_looking = none
found (stop_with r) = r

unfoldable pub get_step_to_terminate : List StepPluginStatus → Option ℕ
unfolding search found
get_step_to_terminate ss = found (search ss)
