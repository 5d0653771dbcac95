-- ===== src/Analysis/Run/Defs.antt =====
-- The loop of assessRunStatus over the metrics, and what follows it.
use intuit_argo_rollouts_dem.Prelude.{
  Bool, true, false, not, Option, none, some, String, List, [], ◌∷◌, ℤ, pos, ◌+ℤ◌, int32, ◌<>◌,
  trim_space, str_eq, ◌==◌, if◌then◌else◌,
}
use intuit_argo_rollouts_dem.Analysis.Types.{
  AnalysisPhase, unset, pending, running, successful, failed, error, inconclusive, completed,
  phase_code, Library, Time, Measurement, MetricResult, RunSummary, Metric, AnalysisRun,
}
use intuit_argo_rollouts_dem.Analysis.Results.{
  is_worse, is_terminating, get_result, set_result, last_measurement,
}
use intuit_argo_rollouts_dem.Analysis.Assess.{assess_limits, assess_metric_status}

-- The local variables of the function.
pub record Assessment : Type 0 where
  pub run : AnalysisRun
  pub worst_status : AnalysisPhase
  pub worst_message : String
  pub everything_completed : Bool
  pub run_summary : RunSummary
  pub dry_run_summary : RunSummary

abbrev pub increment : ℤ → ℤ
increment n = int32 (n +ℤ pos 1)

abbrev pub empty_summary : RunSummary
empty_summary = record {
  count = pos 0;
  successful = pos 0;
  failed = pos 0;
  inconclusive = pos 0;
  error = pos 0;
}

-- The `switch phase` that updates a summary.
unfoldable pub record_outcome : AnalysisPhase → RunSummary → RunSummary
record_outcome error s = record s { error = increment s.error }
record_outcome failed s = record s { failed = increment s.failed }
record_outcome inconclusive s = record s { inconclusive = increment s.inconclusive }
record_outcome _ s = record s { successful = increment s.successful }

pub phase_name : AnalysisPhase → String
phase_name unset = ""
phase_name pending = "Pending"
phase_name running = "Running"
phase_name successful = "Successful"
phase_name failed = "Failed"
phase_name error = "Error"
phase_name inconclusive = "Inconclusive"

pub message_or : String → Option Measurement → String
message_or old none = old
message_or old (some last) = last.message

-- `if result.Phase != metricStatus { … SetResult(run, *result) }`
unfoldable pub transition :
    String → AnalysisPhase → AnalysisRun → MetricResult → AnalysisRun × MetricResult
unfolding message_or
transition name status run result =
    let changed = record result {
      phase = status;
      message = message_or result.message (last_measurement run name);
    } in
    if phase_code result.phase == phase_code status
    then (run, result)
    else (set_result run changed, changed)

is_unset : AnalysisPhase → Bool
is_unset unset = true
is_unset _ = false

-- A completed metric outside dry-run mode: the worst phase so far, its message, and the summary.
live_message : String → AnalysisPhase → String → MetricResult → String → String
unfolding phase_name
live_message name status message result old =
    if str_eq message ""
    then old
    else "Metric \""
      <> name
      <> "\" assessed "
      <> phase_name status
      <> " due to "
      <> message
      <> (if str_eq result.message "" then "" else ": \"Error Message: " <> result.message <> "\"")

visit_live :
    Metric → AnalysisPhase → MetricResult → AnalysisPhase × String → Assessment → Assessment
unfolding is_unset live_message record_outcome
visit_live metric status result (phase, message) a =
    let b = record a { run_summary = record_outcome phase a.run_summary } in
    if is_unset a.worst_status
    then record b {
      worst_status = status;
      worst_message = live_message metric.name status message result a.worst_message;
    }
    else if is_worse a.worst_status status
    then record b {
      worst_status = status;
      worst_message = live_message metric.name status message result a.worst_message;
    }
    else b

-- A completed metric in dry-run mode: only its own message and the dry-run summary change.
visit_dry : Metric → AnalysisPhase → MetricResult → AnalysisPhase × String → Assessment → Assessment
unfolding is_unset phase_name record_outcome
visit_dry metric status result (phase, message) a = record a {
  worst_status = if is_unset a.worst_status then successful else a.worst_status;
  run =
      if str_eq message ""
      then a.run
      else set_result a.run (record result {
        message = "Metric assessed " <> phase_name status <> " due to " <> message;
      });
  dry_run_summary = record_outcome phase a.dry_run_summary;
}

module _ (lib : Library) (dry_run : String → Bool) (terminating : Bool) where
  count_metric : Metric → Assessment → Assessment
  count_metric metric a =
      if dry_run metric.name
      then record a {
        dry_run_summary = record a.dry_run_summary { count = increment a.dry_run_summary.count };
      }
      else record a { run_summary = record a.run_summary { count = increment a.run_summary.count } }

  visit_assessed : Metric → AnalysisPhase → AnalysisRun × MetricResult → Assessment → Assessment
  unfolding visit_live visit_dry
  visit_assessed metric status (run, result) before =
      let a = record before { run = run } in
      if not (completed status)
      then record a { everything_completed = false }
      else if dry_run metric.name
      then visit_dry metric status result (assess_limits lib metric result) a
      else visit_live metric status result (assess_limits lib metric result) a

  unfoldable pub visit_result : Metric → Assessment → Option MetricResult → Assessment
  unfolding visit_assessed
  visit_result metric a none = record a { everything_completed = false }
  visit_result metric a (some result) =
      let status = assess_metric_status lib metric result terminating in
      visit_assessed metric status (transition metric.name status a.run result) a

  -- The body of the loop.
  unfoldable pub visit : Metric → Assessment → Assessment
  unfolding count_metric
  visit metric a = visit_result metric (count_metric metric a) (get_result a.run metric.name)

  unfoldable pub assess_loop : List Metric → Assessment → Assessment
  assess_loop [] a = a
  assess_loop (metric ∷ metrics) a = assess_loop metrics (visit metric a)

  -- The statements after the loop: the new run, the phase and the message.
  unfoldable pub conclude : Assessment → AnalysisRun × AnalysisPhase × String
  unfolding is_unset
  conclude a =
      let message = trim_space a.worst_message in
      let run = record a.run {
        status = record a.run.status {
          run_summary = a.run_summary;
          dry_run_summary = some a.dry_run_summary;
        };
      } in
      if terminating
      then (run, if is_unset a.worst_status then successful else a.worst_status, message)
      else if not a.everything_completed
      then (run, running, "")
      else if is_unset a.worst_status
      then (run, running, "")
      else (run, a.worst_status, message)

start_at : Time → Option Time → Option Time
start_at now none = some now
start_at now (some t) = some t

unfoldable pub start_run : Time → AnalysisRun → AnalysisRun
unfolding start_at
start_run now run = record run {
  status = record run.status { started_at = start_at now run.status.started_at };
}

unfoldable pub initial_assessment : Time → AnalysisRun → Assessment
unfolding start_run
initial_assessment now run = record {
  run = start_run now run;
  worst_status = unset;
  worst_message = if run.spec.terminate then "Run Terminated" else "";
  everything_completed = true;
  run_summary = empty_summary;
  dry_run_summary = empty_summary;
}

unfoldable pub assess_run_status :
    Library
    → (String → Bool)
    → Time
    → AnalysisRun
    → List Metric
    → AnalysisRun × AnalysisPhase × String
unfolding assess_loop conclude initial_assessment
assess_run_status lib dry_run now run metrics =
    let terminating = is_terminating run in
    conclude lib dry_run terminating
      (assess_loop lib dry_run terminating metrics (initial_assessment now run))
