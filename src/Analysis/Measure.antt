-- ===== src/Analysis/Measure.antt =====
-- runMeasurements: one measurement for each task. The source runs the tasks concurrently, one
-- goroutine each, and takes a lock round each read and write of the results; the model runs them one
-- after another in a given order. The provider, its errors and the redaction of secrets from a
-- message are parameters.

pub mod Counters
use intuit_argo_rollouts_dem.Prelude.{
  Bool, Option, none, some, String, List, [], ◌∷◌, ◌++◌, ℤ, pos, ◌+ℤ◌, int32, set_last, ◌⊎◌, inl,
  inr, if◌then◌else◌,
}
use intuit_argo_rollouts_dem.Analysis.Types.{
  AnalysisPhase, unset, running, successful, failed, error, inconclusive, completed, Time,
  Measurement, MetricResult, Metric, AnalysisRun,
}
use intuit_argo_rollouts_dem.Analysis.Results.{is_terminating, get_result, set_result}
use intuit_argo_rollouts_dem.Analysis.Tasks.{MetricTask}

-- The interface `metric.Provider`, as far as a measurement uses it.
pub record Provider : Type 0 where
  pub run : AnalysisRun → Metric → Measurement
  pub resume : AnalysisRun → Metric → Measurement → Measurement
  pub terminate : AnalysisRun → Metric → Measurement → Measurement

abbrev increment : ℤ → ℤ
increment n = int32 (n +ℤ pos 1)

-- The `switch newMeasurement.Phase` on the counters of a result.
unfoldable pub count_outcome : AnalysisPhase → MetricResult → MetricResult
count_outcome successful r = record r {
  successful = increment r.successful;
  count = increment r.count;
  consecutive_error = pos 0;
}
count_outcome failed r = record r {
  failed = increment r.failed;
  count = increment r.count;
  consecutive_error = pos 0;
}
count_outcome inconclusive r = record r {
  inconclusive = increment r.inconclusive;
  count = increment r.count;
  consecutive_error = pos 0;
}
count_outcome error r = record r {
  error = increment r.error;
  consecutive_error = increment r.consecutive_error;
}
count_outcome _ r = r

finish_at : Time → Option Time → Option Time
finish_at now none = some now
finish_at now (some t) = some t

-- A measurement that has completed is given the time at which it finished.
unfoldable pub stamp : Time → Measurement → Measurement
unfolding finish_at
stamp now m =
    if completed m.phase then record m { finished_at = finish_at now m.finished_at } else m

abbrev blank : Time → Measurement
blank now = record {
  phase = unset;
  message = "";
  started_at = some now;
  finished_at = none;
  resume_at = none;
}

-- A new measurement is appended; one that was in progress is replaced.
unfoldable pub store : Option Measurement → Measurement → MetricResult → MetricResult
store none m r = record r { measurements = r.measurements ++ m ∷ [] }
store (some _) m r = record r { measurements = set_last r.measurements m }

result_or_new : (String → Bool) → String → Option MetricResult → MetricResult
result_or_new dry_run name none = record {
  name = name;
  phase = running;
  measurements = [];
  message = "";
  count = pos 0;
  successful = pos 0;
  failed = pos 0;
  inconclusive = pos 0;
  error = pos 0;
  consecutive_error = pos 0;
  dry_run = dry_run name;
}
result_or_new dry_run name (some r) = r

-- From `if newMeasurement.Phase.Completed()` on: the result with the measurement counted and stored.
unfoldable pub record_measurement :
    (String → String) → Time → Option Measurement → Measurement → MetricResult → MetricResult
unfolding count_outcome stamp store
record_measurement redact now incomplete m r =
    let stamped = stamp now m in
    store incomplete (record stamped { message = redact m.message }) (count_outcome m.phase r)

without_provider : Time → String → Option Measurement → Measurement
without_provider now e none = record (blank now) { phase = error; message = e }
without_provider now e (some m) = record m { phase = error; message = e }

note_termination : AnalysisPhase → Measurement → Measurement
note_termination successful m = record m { message = "Metric Terminated" }
note_termination _ m = m

by_provider : Provider → Bool → AnalysisRun → Metric → Option Measurement → Measurement
unfolding note_termination
by_provider provider terminating run metric none = provider.run run metric
by_provider provider terminating run metric (some m) =
    let ended = provider.terminate run metric m in
    if terminating then note_termination ended.phase ended else provider.resume run metric m

module _ (new_provider : Metric → String ⊎ Provider) (redact : String → String)
    (dry_run : String → Bool) (now : Time) where
  -- The new measurement of a task, by whether there is a provider for the metric.
  measure_with : Bool → AnalysisRun → MetricTask → String ⊎ Provider → Measurement
  unfolding without_provider by_provider
  measure_with terminating run task (inl e) = without_provider now e task.incomplete_measurement
  measure_with terminating run task (inr provider) =
      by_provider provider terminating run task.metric task.incomplete_measurement

  -- The goroutine of one task.
  unfoldable pub run_task : Bool → AnalysisRun → MetricTask → AnalysisRun
  unfolding measure_with result_or_new
  run_task terminating run task = set_result run (
      record_measurement redact now task.incomplete_measurement
        (measure_with terminating run task (new_provider task.metric))
        (result_or_new dry_run task.metric.name (get_result run task.metric.name)))

  run_tasks : Bool → AnalysisRun → List MetricTask → AnalysisRun
  run_tasks terminating run [] = run
  run_tasks terminating run (task ∷ tasks) =
      run_tasks terminating (run_task terminating run task) tasks

  unfoldable pub run_measurements : AnalysisRun → List MetricTask → AnalysisRun
  unfolding run_tasks
  run_measurements run tasks = run_tasks (is_terminating run) run tasks
