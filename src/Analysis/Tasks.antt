-- ===== src/Analysis/Tasks.antt =====
-- generateMetricTasks: which metrics are measured now. The clock is read as `now`.
-- The source pairs each resolved metric with the metric of the spec at its index; the two lists have
-- the same length, since each resolved metric is made from one of the spec.

pub mod Due
pub mod Planned
pub mod Selection
use intuit_argo_rollouts_dem.Prelude.{
  Bool, true, false, not, Option, none, some, List, [], ◌∷◌, pos, ◌+ℤ◌, ltb_ℤ, str_eq,
  if◌then◌else◌,
}
use intuit_argo_rollouts_dem.Common.{after}
use intuit_argo_rollouts_dem.Analysis.Types.{
  AnalysisPhase, error, Library, Time, Duration, Measurement, MetricResult, Metric, AnalysisRun,
}
use intuit_argo_rollouts_dem.Analysis.Results.{
  is_terminating, get_result, metric_completed, last_measurement,
}
use intuit_argo_rollouts_dem.Analysis.Assess.{count_reached}

pub record MetricTask : Type 0 where
  pub metric : Metric
  pub incomplete_measurement : Option Measurement

abbrev pub default_error_retry_interval : Duration
default_error_retry_interval = pos 10_000_000_000

abbrev pub is_error : AnalysisPhase → Bool
is_error error = true
is_error _ = false

unfoldable pub waits_to_resume : Time → Option Time → Bool
waits_to_resume now none = false
waits_to_resume now (some resume_at) = after resume_at now

-- Whether the initial delay has passed, for a run that has started and a delay that parses.
unfoldable pub delay_over : Time → Option Time → Option Duration → Bool
delay_over now (some started) (some delay) = not (after (started +ℤ delay) now)
delay_over now _ _ = false

unfoldable pub reached_of : Library → Metric → Option MetricResult → Bool
reached_of lib metric none = false
reached_of lib metric (some result) = count_reached lib metric result

unfoldable pub overdue : Time → Time → Option Duration → Bool
overdue now finished none = false
overdue now finished (some interval) = after now (finished +ℤ interval)

module _ (lib : Library) (now : Time) (run : AnalysisRun) where
  unfoldable pub retry_interval : Metric → Measurement → Option Duration
  retry_interval metric last =
      if is_error last.phase
      then some default_error_retry_interval
      else if str_eq metric.interval ""
      then some default_error_retry_interval
      else lib.parse_duration metric.interval

  -- The first measurement of a metric.
  unfoldable pub first_task : Metric → Metric → Option MetricTask
  unfolding delay_over
  first_task spec_metric metric =
      let task = some (record { metric = spec_metric; incomplete_measurement = none }) in
      if str_eq metric.initial_delay ""
      then task
      else if delay_over now run.status.started_at (lib.parse_duration metric.initial_delay)
      then task
      else none

  -- A further measurement, after one that has finished at `finished`.
  unfoldable pub next_task : Metric → Metric → Measurement → Time → Option MetricTask
  unfolding reached_of retry_interval overdue
  next_task spec_metric metric last finished =
      if reached_of lib metric (get_result run metric.name)
      then none
      else if overdue now finished (retry_interval metric last)
      then some (record { metric = spec_metric; incomplete_measurement = none })
      else none

  -- A metric with a last measurement, by the time at which that finished.
  unfoldable pub after_finish :
      Bool → Metric → Metric → Measurement → Option Time → Option MetricTask
  unfolding waits_to_resume next_task
  after_finish terminating spec_metric metric last none =
      if waits_to_resume now last.resume_at
      then none
      else some (record { metric = spec_metric; incomplete_measurement = some last })
  after_finish terminating spec_metric metric last (some finished) =
      if terminating then none else next_task spec_metric metric last finished

  unfoldable pub after_last : Bool → Metric → Metric → Option Measurement → Option MetricTask
  unfolding first_task after_finish
  after_last terminating spec_metric metric none =
      if terminating then none else first_task spec_metric metric
  after_last terminating spec_metric metric (some last) =
      after_finish terminating spec_metric metric last last.finished_at

  -- The body of the loop.
  unfoldable pub task_for : Bool → Metric → Metric → Option MetricTask
  unfolding after_last
  task_for terminating spec_metric metric =
      if metric_completed run metric.name
      then none
      else after_last terminating spec_metric metric (last_measurement run metric.name)

  abbrev pub add_task : Option MetricTask → List MetricTask → List MetricTask
  add_task none tasks = tasks
  add_task (some task) tasks = task ∷ tasks

  unfoldable pub tasks_for : Bool → List Metric → List Metric → List MetricTask
  unfolding task_for
  tasks_for terminating (spec_metric ∷ specs) (metric ∷ metrics) =
      add_task (task_for terminating spec_metric metric) (tasks_for terminating specs metrics)
  tasks_for terminating _ _ = []

  unfoldable pub generate_metric_tasks : List Metric → List MetricTask
  unfolding tasks_for
  generate_metric_tasks metrics = tasks_for (is_terminating run) run.spec.metrics metrics
