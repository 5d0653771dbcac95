-- ===== src/Plugins.antt =====
-- Step plugins: rollout/stepplugin.go. A plugin is what the resolver gives: its operations, which
-- return a status, possibly nil, or an error. Events and logs are left out; what is enqueued is a
-- result.
pub mod Statuses
pub mod Safe
mod Examples
use intuit_argo_rollouts_dem.Prelude.{
  ℕ, zero, suc, ◌+◌, ◌==◌, String, Bool, true, false, not, ◌&&◌, ◌||◌, Option, none, some, List, [],
  ◌∷◌, ℤ, pos, ◌+ℤ◌, ◌-ℤ◌, ◌<>◌, show_int, length, get_elem?, is_some, if◌then◌else◌,
}
use intuit_argo_rollouts_dem.Common.{Time, Duration, Library}
use intuit_argo_rollouts_dem.Rollout.{
  StepPluginOperation, run_operation, terminate_operation, abort_operation, StepPluginPhase,
  plugin_running, plugin_failed, plugin_error, StepPluginStatus, CanaryStep, CanaryStrategy,
  CanaryStatus, RolloutStatus, Rollout, RolloutPhase, progressing_phase,
}
use intuit_argo_rollouts_dem.Pause.{PauseContext, is_aborted, add_abort}
use intuit_argo_rollouts_dem.Canary.Steps.{get_current_canary_step, index_or_zero, steps_of}
use intuit_argo_rollouts_dem.Status.Phase.{is_fully_promoted}
use intuit_argo_rollouts_dem.Plugins.Statuses.{
  same_operation, same_phase, update_step_plugin_status, is_step_plugin_completed,
  get_step_to_terminate,
}

-- What a plugin returns: nothing on an error, and otherwise a pointer.
abbrev pub Answer : Type 0
Answer = Option (Option StepPluginStatus)

pub record StepPlugin : Type 0 where
  pub run : Rollout → Answer
  pub terminate : Rollout → Answer
  pub abort_run : Rollout → Answer

-- `resolver.Resolve`, of the index and the name of the plugin.
abbrev pub Resolver : Type 0
Resolver = ℕ → String → Option StepPlugin

-- The statuses are none before the reconciliation.
pub record StepPluginContext : Type 0 where
  pub step_plugin_statuses : Option (List StepPluginStatus)
  pub has_error : Bool

-- What the reconciliation leaves: its context, the pause context, and the delay, if any, that it is
-- to be called again after.
pub record Reconciled : Type 0 where
  pub plugins : StepPluginContext
  pub pause : PauseContext
  pub delay : Option Duration

abbrev default_controller_error_backoff : Duration
default_controller_error_backoff = pos 30_000_000_000

abbrev default_backoff_delay : Duration
default_backoff_delay = pos 5_000_000_000

abbrev pub statuses_of : Rollout → List StepPluginStatus
statuses_of ro = ro.status.canary.step_plugin_statuses

abbrev reconciled : PauseContext → List StepPluginStatus → Reconciled
reconciled p ss = record {
  plugins = record { step_plugin_statuses = some ss; has_error = false };
  pause = p;
  delay = none;
}

-- handleError.
unfoldable pub handle_error : PauseContext → List StepPluginStatus → Reconciled
handle_error p ss = record {
  plugins = record { step_plugin_statuses = some ss; has_error = true };
  pause = p;
  delay = some default_controller_error_backoff;
}

-- The statuses with the one that a plugin returned.
abbrev with_status : List StepPluginStatus → Option StepPluginStatus → List StepPluginStatus
with_status ss none = ss
with_status ss (some s) = (update_step_plugin_status ss s).0

-- The copy of the rollout that a plugin is called with: it shares the elements of the list of
-- statuses, which are replaced in place, and not what is appended to it.
shared : (old new : List StepPluginStatus) → List StepPluginStatus
shared [] new = []
shared (s ∷ ss) [] = s ∷ ss
shared (s ∷ ss) (n ∷ ns) = n ∷ shared ss ns

seen : Rollout → List StepPluginStatus → Rollout
unfolding shared
seen ro ss = record ro {
  status = record ro.status {
    canary = record ro.status.canary { step_plugin_statuses = shared (statuses_of ro) ss };
  };
}

is_progressing : RolloutPhase → Bool
is_progressing progressing_phase = true
is_progressing _ = false

-- One operation on a plugin that is to be resolved: nothing on an error.
call : (StepPlugin → Answer) → Option StepPlugin → Answer
call f none = none
call f (some plugin) = f plugin

-- What a round of the loop over the statuses does: panic, return with an error, or go on.
pub data Round : Type 0 where
  panics : Round
  fails : Round
  goes_on : List StepPluginStatus → Round

answered : List StepPluginStatus → Answer → Round
answered ss none = fails
answered ss (some s) = goes_on (with_status ss s)

module _ (resolve : Resolver) (ro : Rollout) where
  abort_plugin : List StepPluginStatus → ℕ → Option String → Round
  unfolding call answered seen
  abort_plugin ss index none = goes_on ss
  abort_plugin ss index (some name) =
      answered ss (call (λ p. p.abort_run (seen ro ss)) (resolve index name))

  -- An index past the steps is out of range.
  abort_step : List StepPluginStatus → ℕ → Option CanaryStep → Round
  unfolding abort_plugin
  abort_step ss index none = panics
  abort_step ss index (some step) = abort_plugin ss index step.plugin

  abort_status : List StepPluginStatus → Option StepPluginStatus → Round
  unfolding abort_step
  abort_status ss none = panics
  abort_status ss (some s) =
      if not (same_operation s.operation run_operation)
      then goes_on ss
      else abort_step ss s.index (get_elem? (steps_of ro.spec.canary) s.index)

  -- One round, and the rest of the loop from the statuses it leaves.
  after_round :
      PauseContext
      → List StepPluginStatus
      → Round
      → (List StepPluginStatus → Option Reconciled)
      → Option Reconciled
  after_round p ss panics continue = none
  after_round p ss fails continue = some (handle_error p ss)
  after_round p ss (goes_on next) continue = continue next

  -- The loop from the last status down, which looks at the status at `i` of the list as it is then.
  abort_from : PauseContext → ℕ → List StepPluginStatus → Option Reconciled
  unfolding abort_status after_round
  abort_from p zero ss = some (reconciled p ss)
  abort_from p (suc i) ss =
      after_round p ss (abort_status ss (get_elem? ss i)) (λ next. abort_from p i next)

  terminated : PauseContext → Answer → Reconciled
  terminated p none = handle_error p (statuses_of ro)
  terminated p (some s) = reconciled p (with_status (statuses_of ro) s)

  terminate_plugin : PauseContext → ℕ → Option String → Reconciled
  unfolding call terminated
  terminate_plugin p index none = reconciled p (statuses_of ro)
  terminate_plugin p index (some name) =
      terminated p (call (λ s. s.terminate ro) (resolve index name))

  terminate_at : PauseContext → ℕ → Option CanaryStep → Option Reconciled
  unfolding terminate_plugin
  terminate_at p index none = none
  terminate_at p index (some step) = some (terminate_plugin p index step.plugin)

  terminate_last : PauseContext → Option ℕ → Option Reconciled
  unfolding terminate_at
  terminate_last p none = some (reconciled p (statuses_of ro))
  terminate_last p (some i) = terminate_at p i (get_elem? (steps_of ro.spec.canary) i)

has_none : List StepPluginStatus → Bool
has_none [] = true
has_none (s ∷ ss) = false

-- At the first step: whether the statuses are outdated.
clean_at : Option CanaryStep → ℕ → List StepPluginStatus → List StepPluginStatus
clean_at none i ss = ss
clean_at (some step) i ss =
    if not (i == 0)
    then ss
    else (if is_some step.plugin
        then (if is_step_plugin_completed false ss i then [] else ss)
        else [])

unfoldable pub clean_status_for_retry : Rollout → List StepPluginStatus → List StepPluginStatus
unfolding has_none clean_at
clean_status_for_retry ro ss =
    let current = get_current_canary_step ro in
    if has_none ss || ro.status.abort then ss else clean_at current.0 (index_or_zero current.1) ss

-- `time.Until` of the time of the update and the back-off, with a buffer. An update without a time
-- panics.
remaining : (now : Time) → Option Time → Duration → Option Duration
remaining now none backoff = none
remaining now (some t) backoff = some ((t +ℤ backoff -ℤ now) +ℤ default_backoff_delay)

delayed : Reconciled → Option Duration → Option Reconciled
delayed r none = none
delayed r (some d) = some (record r { delay = some d })

abbrev failed_message : StepPluginStatus → String
failed_message s =
    "Step Plugin " <> show_int (pos (s.index + 1)) <> " (" <> s.name <> ") failed: " <> s.message

module _ (lib : Library) (now : Time) where
  back_off :
      PauseContext → StepPluginStatus → List StepPluginStatus → Option Duration → Option Reconciled
  unfolding remaining delayed
  back_off p s ss none = some (handle_error p ss)
  back_off p s ss (some d) = delayed (reconciled p ss) (remaining now s.updated_at d)

  -- After the run, with the updated statuses.
  after_run : PauseContext → StepPluginStatus → List StepPluginStatus → Option Reconciled
  unfolding back_off
  after_run p s ss =
      if s.disabled
      then some (reconciled p ss)
      else (if same_phase s.phase plugin_running || same_phase s.phase plugin_error
          then back_off p s ss (lib.parse_duration s.backoff)
          else (if same_phase s.phase plugin_failed
              then some (reconciled (add_abort (failed_message s) p) ss)
              else some (reconciled p ss)))

  ran : PauseContext → List StepPluginStatus → Answer → Option Reconciled
  unfolding after_run
  ran p ss none = some (handle_error p ss)
  ran p ss (some none) = some (reconciled p ss)
  ran p ss (some (some s)) = after_run p s (with_status ss (some s))

  run_plugin :
      Resolver → PauseContext → List StepPluginStatus → ℕ → Option String → Option Reconciled
  unfolding ran call is_progressing
  run_plugin resolve p ss i none = some (reconciled p ss)
  run_plugin resolve p ss i (some name) =
      if is_progressing p.rollout.status.phase
      then ran p ss (call (λ s. s.run p.rollout) (resolve i name))
      else some (reconciled p ss)

  run_step :
      Resolver
      → PauseContext
      → List StepPluginStatus
      → Option CanaryStep × Option ℕ
      → Option Reconciled
  unfolding run_plugin
  run_step resolve p ss (none, i) = some (reconciled p ss)
  run_step resolve p ss (some step, i) = run_plugin resolve p ss (index_or_zero i) step.plugin

  -- None is a panic.
  unfoldable pub reconcile : Resolver → PauseContext → Option Reconciled
  unfolding abort_from terminate_last run_step
  reconcile resolve p =
      let ro = p.rollout in
      let ss = statuses_of ro in
      if is_aborted p
      then abort_from resolve ro p (length ss) ss
      else (if ro.status.promote_full || is_fully_promoted ro.status
          then terminate_last resolve ro p (get_step_to_terminate ss)
          else run_step resolve p (clean_status_for_retry ro ss) (get_current_canary_step ro))

-- updateStatus, of the list of statuses of the new status.
unfoldable pub update_status : StepPluginContext → List StepPluginStatus → List StepPluginStatus
update_status c ss = elim c.step_plugin_statuses [ none ↦ ss | some new ↦ new ]
