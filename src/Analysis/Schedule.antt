-- ===== src/Analysis/Schedule.antt =====
-- calculateNextReconcileTime: the earliest time at which some metric has work to do.

pub mod Due
pub mod Earliest
use intuit_argo_rollouts_dem.Prelude.{
  Bool, false, Option, none, some, List, [], ◌∷◌, ◌+ℤ◌, str_eq, if◌then◌else◌,
}
use intuit_argo_rollouts_dem.Common.{after}
use intuit_argo_rollouts_dem.Analysis.Types.{
  Library, Time, Duration, Measurement, MetricResult, Metric, AnalysisRun,
}
use intuit_argo_rollouts_dem.Analysis.Results.{get_result, metric_completed, last_measurement}
use intuit_argo_rollouts_dem.Analysis.Assess.{count_reached}
use intuit_argo_rollouts_dem.Analysis.Tasks.{is_error, default_error_retry_interval}

-- `if reconcileTime == nil || reconcileTime.After(t) { reconcileTime = &t }`
unfoldable pub earlier : Option Time → Option Time → Option Time
earlier best none = best
earlier none (some t) = some t
earlier (some best) (some t) = if after best t then some t else some best

unfoldable pub start_or : Time → Option Time → Time
start_or now none = now
start_or now (some t) = t

unfoldable pub plus : Time → Option Duration → Option Time
plus t none = none
plus t (some d) = some (t +ℤ d)

unfoldable pub reached_of : Library → Metric → Option MetricResult → Bool
reached_of lib metric none = false
reached_of lib metric (some result) = count_reached lib metric result

module _ (lib : Library) (now : Time) (run : AnalysisRun) where
  unfoldable pub due_interval : Metric → Measurement → Option Duration
  due_interval metric last =
      if is_error last.phase
      then some default_error_retry_interval
      else if str_eq metric.interval ""
      then none
      else lib.parse_duration metric.interval

  unfoldable pub after_finish : Metric → Measurement → Option Time → Option Time
  unfolding plus reached_of due_interval
  after_finish metric last none = last.resume_at
  after_finish metric last (some finished) =
      if reached_of lib metric (get_result run metric.name)
      then none
      else plus finished (due_interval metric last)

  unfoldable pub due_after : Metric → Option Measurement → Option Time
  unfolding start_or plus after_finish
  due_after metric none =
      if str_eq metric.initial_delay ""
      then none
      else plus (start_or now run.status.started_at) (lib.parse_duration metric.initial_delay)
  due_after metric (some last) = after_finish metric last last.finished_at

  -- The time that one round of the loop compares with the earliest so far; `none` on `continue`.
  unfoldable pub due_time : Metric → Option Time
  unfolding due_after
  due_time metric =
      if metric_completed run metric.name
      then none
      else due_after metric (last_measurement run metric.name)

  unfoldable pub next_from : Option Time → List Metric → Option Time
  next_from best [] = best
  next_from best (metric ∷ metrics) = next_from (earlier best (due_time metric)) metrics

  unfoldable pub calculate_next_reconcile_time : List Metric → Option Time
  unfolding next_from
  calculate_next_reconcile_time metrics = next_from none metrics
