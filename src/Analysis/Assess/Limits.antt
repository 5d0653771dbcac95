-- ===== src/Analysis/Assess/Limits.antt =====
-- The limits of a metric against the counters of its result.
use intuit_argo_rollouts_dem.Prelude.{
  Bool, false, Option, none, some, String, ℤ, pos, ltb_ℤ, leb_ℤ, int32, show_int, ◌<>◌,
  if◌then◌else◌,
}
use intuit_argo_rollouts_dem.Analysis.Types.{
  AnalysisPhase, unset, failed, inconclusive, error, IntOrString, Library, MetricResult, Metric,
  effective_count,
}

module _ (lib : Library) where
  unfoldable pub limit_or : ℤ → Option IntOrString → ℤ
  limit_or default none = default
  limit_or default (some limit) = int32 (lib.int_value limit)

  abbrev pub default_consecutive_error_limit : ℤ
  default_consecutive_error_limit = pos 4

  unfoldable pub consecutive_error_limit : Metric → ℤ
  consecutive_error_limit metric =
      limit_or default_consecutive_error_limit metric.consecutive_error_limit

  -- Each of the three tests overwrites what an earlier one has set.
  over_failures : Metric → MetricResult → AnalysisPhase × String → AnalysisPhase × String
  over_failures metric result before =
      let limit = limit_or (pos 0) metric.failure_limit in
      if ltb_ℤ limit result.failed
      then (
        failed,
        "failed (" <> show_int result.failed <> ") > failureLimit (" <> show_int limit <> ")",
      )
      else before

  over_inconclusive : Metric → MetricResult → AnalysisPhase × String → AnalysisPhase × String
  over_inconclusive metric result before =
      let limit = limit_or (pos 0) metric.inconclusive_limit in
      if ltb_ℤ limit result.inconclusive
      then (
        inconclusive,
        "inconclusive ("
            <> show_int result.inconclusive
            <> ") > inconclusiveLimit ("
            <> show_int limit
            <> ")",
      )
      else before

  over_errors : Metric → MetricResult → AnalysisPhase × String → AnalysisPhase × String
  over_errors metric result before =
      let limit = consecutive_error_limit metric in
      if ltb_ℤ limit result.consecutive_error
      then (
        error,
        "consecutiveErrors ("
            <> show_int result.consecutive_error
            <> ") > consecutiveErrorLimit ("
            <> show_int limit
            <> ")",
      )
      else before

  -- assessMetricFailureInconclusiveOrError
  unfoldable pub assess_limits : Metric → MetricResult → AnalysisPhase × String
  unfolding over_failures over_inconclusive over_errors
  assess_limits metric result =
      over_errors metric result
        (over_inconclusive metric result (over_failures metric result (unset, "")))

  unfoldable pub reached : Option IntOrString → ℤ → Bool
  reached none n = false
  reached (some limit) n = leb_ℤ (int32 (lib.int_value limit)) n

  -- `effectiveCount != nil && result.Count >= int32(effectiveCount.IntValue())`
  unfoldable pub count_reached : Metric → MetricResult → Bool
  unfolding reached
  count_reached metric result = reached (effective_count lib metric) result.count
