-- ===== src/Analysis/Assess/Verdict.antt =====
-- assessMetricStatus, and what decides the phase of a metric.
use intuit_argo_rollouts_dem.Prelude.{Bool, Option, none, some, last?, if◌then◌else◌, not}
use intuit_argo_rollouts_dem.Analysis.Types.{
  AnalysisPhase, unset, pending, running, successful, completed, Library, Measurement, MetricResult,
  Metric,
}
use intuit_argo_rollouts_dem.Analysis.Assess.Limits.{assess_limits, count_reached}

module _ (lib : Library) where
  -- The end of the function, for a last measurement that has completed.
  unfoldable pub after_limits : Metric → MetricResult → Bool → AnalysisPhase → AnalysisPhase
  after_limits metric result terminating unset =
      if count_reached lib metric result
      then successful
      else if terminating
      then successful
      else running
  after_limits metric result terminating phase = phase

  unfoldable pub after_last : Metric → MetricResult → Bool → Option Measurement → AnalysisPhase
  unfolding after_limits completed
  after_last metric result terminating none = if terminating then successful else pending
  after_last metric result terminating (some last) =
      if not (completed last.phase)
      then running
      else after_limits metric result terminating (assess_limits lib metric result).0

  unfoldable pub assess_metric_status : Metric → MetricResult → Bool → AnalysisPhase
  unfolding after_last
  assess_metric_status metric result terminating =
      if completed result.phase
      then result.phase
      else after_last metric result terminating (last? result.measurements)
