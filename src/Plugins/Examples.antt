-- ===== src/Plugins/Examples.antt =====
-- Examples of step plugins.
use intuit_argo_rollouts_dem.Prelude.{
  ◌≡◌, refl, ℕ, true, false, none, some, [], ◌∷◌, ℤ, pos, arith, is_some,
}
use mathlib.Core.Path.{subst}
use mathlib.Core.Option.{some-injective}
use intuit_argo_rollouts_dem.Common.{Library, IntOrString, from_int, from_string}
use intuit_argo_rollouts_dem.Rollout.{
  StepPluginStatus, run_operation, abort_operation, terminate_operation, plugin_running,
  plugin_successful,
}
use intuit_argo_rollouts_dem.Rollout.Sample.{rollout, status, canary_status}
use intuit_argo_rollouts_dem.Pause.{PauseContext}
use intuit_argo_rollouts_dem.Plugins.{StepPlugin, Resolver, reconcile}
use intuit_argo_rollouts_dem.Plugins.Statuses.{find_current_step_status, update_step_plugin_status}
use intuit_argo_rollouts_dem.Plugins.Statuses.Laws.{update_step_plugin_status-find}
use intuit_argo_rollouts_dem.Plugins.Safe.{IsPlugin, IsResolver, reconcile-is_some}

abbrev running : StepPluginStatus
running = record {
  index = 1;
  name = "job";
  operation = run_operation;
  phase = plugin_running;
  message = "";
  updated_at = some (pos 100);
  backoff = "30s";
  disabled = false;
}

abbrev stopped : StepPluginStatus
stopped = record running {
  operation = abort_operation;
  phase = plugin_successful;
  updated_at = none;
}

update_step_plugin_status-find_example :
    find_current_step_status (update_step_plugin_status (running ∷ []) stopped).0 1 run_operation
    ≡ find_current_step_status (running ∷ []) 1 run_operation
update_step_plugin_status-find_example =
    update_step_plugin_status-find (running ∷ []) stopped 1 run_operation

abbrev int_or_zero : IntOrString → ℤ
int_or_zero (from_int z) = z
int_or_zero (from_string s) = pos 0

abbrev library : Library
library = record {
  int_value = int_or_zero;
  parse_duration = λ s. some (pos 30_000_000_000);
  parse_int32 = λ s. none;
}

-- Every plugin runs, and is stopped at once.
abbrev job : ℕ → StepPlugin
job i = record {
  run = λ ro. some (some (record running { index = i }));
  terminate = λ ro. some (some (record stopped { index = i; operation = terminate_operation }));
  abort_run = λ ro. some (some (record stopped { index = i }));
}

abbrev jobs : Resolver
jobs i name = some (job i)

job-IsPlugin : (i : ℕ) → IsPlugin i (job i)
job-IsPlugin i = record {
  run-IsTimed = λ ro d p. refl;
  terminate-IsOfStep = λ ro. refl;
  abort_run-IsOfStep = λ ro. refl;
}

jobs-IsResolver : IsResolver jobs
jobs-IsResolver i name p e = subst (IsPlugin i) (some-injective (job i) p e) (job-IsPlugin i)

abbrev aborting : PauseContext
aborting = record {
  rollout = record rollout {
    status = record status {
      canary = record canary_status { step_plugin_statuses = running ∷ [] };
    };
  };
  add_pause_reasons = [];
  remove_pause_reasons = [];
  should_clear = false;
  should_abort = true;
  should_unabort = false;
  abort_message = "";
}

reconcile-is_some_example : is_some (reconcile library (pos 500) jobs aborting) ≡ true
reconcile-is_some_example =
    reconcile-is_some jobs jobs-IsResolver library (pos 500) aborting (ground arith, tt)
