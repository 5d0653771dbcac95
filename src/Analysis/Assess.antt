-- ===== src/Analysis/Assess.antt =====
-- The assessment of one metric: assessMetricStatus and assessMetricFailureInconclusiveOrError of
-- analysis/analysis.go, with GetConsecutiveErrorLimitOrDefault of utils/defaults/defaults.go.
pub mod Decision
pub mod Counts
mod Limits
pub mod Verdict
unfoldable pub use Limits.{assess_limits, limit_or, count_reached, consecutive_error_limit}
unfoldable pub use Verdict.{assess_metric_status}
