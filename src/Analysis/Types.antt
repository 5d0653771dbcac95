-- ===== src/Analysis/Types.antt =====
-- The data of an analysis run: pkg/apis/rollouts/v1alpha1/analysis_types.go, without the fields that
-- only a metric provider reads (the provider's own configuration, values and metadata).
pub use intuit_argo_rollouts_dem.Common.{
  Time, Duration, IntOrString, from_int, from_string, Library,
}
use intuit_argo_rollouts_dem.Prelude.{
  ℕ, String, Bool, true, false, Option, none, some, List, ℤ, pos, eqb_ℤ, str_eq, if◌then◌else◌,
}

-- `unset` is the empty string.
pub data AnalysisPhase : Type 0 where
  unset pending running successful failed error inconclusive : AnalysisPhase

pub AnalysisPhase-discrete : Discrete AnalysisPhase
AnalysisPhase-discrete = hlevel

unfoldable pub completed : AnalysisPhase → Bool
completed successful = true
completed failed = true
completed error = true
completed inconclusive = true
completed _ = false

-- The source's `left == right` on phases.
abbrev pub phase_code : AnalysisPhase → ℕ
phase_code unset = 0
phase_code pending = 1
phase_code running = 2
phase_code successful = 3
phase_code failed = 4
phase_code error = 5
phase_code inconclusive = 6

pub record Measurement : Type 0 where
  pub phase : AnalysisPhase
  pub message : String
  pub started_at : Option Time
  pub finished_at : Option Time
  pub resume_at : Option Time

pub record MetricResult : Type 0 where
  pub name : String
  pub phase : AnalysisPhase
  pub measurements : List Measurement
  pub message : String
  pub count : ℤ
  pub successful : ℤ
  pub failed : ℤ
  pub inconclusive : ℤ
  pub error : ℤ
  pub consecutive_error : ℤ
  pub dry_run : Bool

pub record RunSummary : Type 0 where
  pub count : ℤ
  pub successful : ℤ
  pub failed : ℤ
  pub inconclusive : ℤ
  pub error : ℤ

pub record Metric : Type 0 where
  pub name : String
  pub interval : String
  pub initial_delay : String
  pub count : Option IntOrString
  pub failure_limit : Option IntOrString
  pub inconclusive_limit : Option IntOrString
  pub consecutive_error_limit : Option IntOrString

pub record TtlStrategy : Type 0 where
  pub seconds_after_completion : Option ℤ
  pub seconds_after_failure : Option ℤ
  pub seconds_after_success : Option ℤ

pub record AnalysisRunSpec : Type 0 where
  pub metrics : List Metric
  pub terminate : Bool
  pub ttl_strategy : Option TtlStrategy

pub record AnalysisRunStatus : Type 0 where
  pub phase : AnalysisPhase
  pub message : String
  pub metric_results : List MetricResult
  pub started_at : Option Time
  pub run_summary : RunSummary
  pub dry_run_summary : Option RunSummary
  pub completed_at : Option Time

pub record AnalysisRun : Type 0 where
  pub spec : AnalysisRunSpec
  pub status : AnalysisRunStatus

module _ (lib : Library) where
  -- `m.Count == nil || m.Count.IntValue() == 0`
  unfoldable pub count_unset : Option IntOrString → Bool
  count_unset none = true
  count_unset (some c) = eqb_ℤ (lib.int_value c) (pos 0)

  unfoldable pub effective_count : Metric → Option IntOrString
  unfolding count_unset
  effective_count m =
      if count_unset m.count
      then (if str_eq m.interval "" then some (from_int (pos 1)) else none)
      else m.count
