-- ===== src/Analysis/Collect.antt =====
-- garbageCollectMeasurements, and the time to live of a completed run.

pub mod Retention
use intuit_argo_rollouts_dem.Prelude.{
  ℕ, suc, ◌-◌, ◌/◌, Bool, false, not, Option, none, some, String, List, [], ◌∷◌, ◌++◌, ℤ, pos,
  negsuc, ◌-ℤ◌, int32, ltb, ltb_ℤ, str_eq, length, drop, if◌then◌else◌,
}
use intuit_argo_rollouts_dem.Common.{whole_seconds}
use intuit_argo_rollouts_dem.Analysis.Types.{
  AnalysisPhase, successful, failed, completed, Time, MetricResult, Metric, TtlStrategy,
  AnalysisRun,
}

-- `metricsByName[name]`: of two metrics with one name, the later.
later_or : String → Metric → Option Metric → Option Metric
later_or name m (some later) = some later
later_or name m none = if str_eq m.name name then some m else none

unfoldable pub metric_named : String → List Metric → Option Metric
unfolding later_or
metric_named name [] = none
metric_named name (m ∷ ms) = later_or name m (metric_named name ms)

or_else : Option ℤ → Option ℤ → Option ℤ
or_else none y = y
or_else (some x) y = some x

-- What creating the provider and its `GarbageCollect` answer for a metric and a limit.
pub data GcAnswer : Type 0 where
  collected : GcAnswer
  no_provider : String → GcAnswer
  gc_failed : String → GcAnswer

module _ (gc : Metric → ℕ → GcAnswer) (retention : String → Option ℤ) (metrics : List Metric)
    (limit : ℕ) where
  retention_or : Option ℤ → ℕ
  retention_or none = limit
  retention_or (some (pos n)) = if ltb 0 n then n else limit
  retention_or (some (negsuc n)) = limit

  -- The limit of one metric: its own retention where that is positive.
  unfoldable pub measurements_limit : String → ℕ
  unfolding retention_or
  measurements_limit name = retention_or (retention name)

  -- `result.Measurements[length-measurementsLimit : length]`
  unfoldable pub trim : MetricResult → MetricResult
  trim r = record r {
    measurements = drop (length r.measurements - measurements_limit r.name) r.measurements;
  }

  unfoldable pub first_error : List String → Option String
  first_error [] = none
  first_error (e ∷ _) = some e

  abbrev pub keep :
      MetricResult → List MetricResult × Option String → List MetricResult × Option String
  keep r (rest, e) = (r ∷ rest, e)

  -- One round: what becomes of the result `r` before the results `rs`, where `go` is the rest of the
  -- loop, which takes the errors so far.
  unfoldable pub by_answer :
      MetricResult
      → List MetricResult
      → List String
      → (List String → List MetricResult × Option String)
      → GcAnswer
      → List MetricResult × Option String
  by_answer r rs errors go collected = keep (trim r) (go errors)
  by_answer r rs errors go (no_provider e) = keep r (go (errors ++ e ∷ []))
  by_answer r rs errors go (gc_failed e) = (r ∷ rs, some e)

  unfoldable pub by_metric :
      MetricResult
      → List MetricResult
      → List String
      → (List String → List MetricResult × Option String)
      → Option Metric
      → List MetricResult × Option String
  unfolding by_answer
  by_metric r rs errors go none = keep r (go errors)
  by_metric r rs errors go (some metric) =
      by_answer r rs errors go (gc metric (measurements_limit r.name))

  -- The loop: the new results, and the error that is returned. `errors` are those kept so far.
  unfoldable pub collect_from : List MetricResult → List String → List MetricResult × Option String
  unfolding by_metric first_error
  collect_from [] errors = ([], first_error errors)
  collect_from (r ∷ rs) errors =
      if ltb (measurements_limit r.name) (length r.measurements)
      then by_metric r rs errors (collect_from rs) (metric_named r.name metrics)
      else keep r (collect_from rs errors)

  unfoldable pub garbage_collect_measurements : AnalysisRun → AnalysisRun × Option String
  unfolding collect_from
  garbage_collect_measurements run =
      let (results, e) = collect_from run.status.metric_results [] in
      (record run { status = record run.status { metric_results = results } }, e)

-- Each branch is taken only where its own field is set; the last is the fallback of both.
ttl_seconds : AnalysisPhase → TtlStrategy → Option ℤ
unfolding or_else
ttl_seconds successful s = or_else s.seconds_after_success s.seconds_after_completion
ttl_seconds failed s = or_else s.seconds_after_failure s.seconds_after_completion
ttl_seconds _ s = s.seconds_after_completion

exceeds : ℤ → Option ℤ → Bool
exceeds elapsed none = false
exceeds elapsed (some ttl) = ltb_ℤ ttl (int32 elapsed)

exceeded_since : Time → AnalysisPhase → Option Time → TtlStrategy → Bool
unfolding exceeds ttl_seconds whole_seconds
exceeded_since now phase none s = false
exceeded_since now phase (some completed_at) s =
    exceeds (whole_seconds (now -ℤ completed_at)) (ttl_seconds phase s)

exceeded_by : Time → AnalysisPhase → Option Time → Option TtlStrategy → Bool
unfolding exceeded_since
exceeded_by now phase completed_at none = false
exceeded_by now phase completed_at (some s) = exceeded_since now phase completed_at s

unfoldable pub is_analysis_run_ttl_exceeded : Time → AnalysisRun → Bool
unfolding exceeded_by
is_analysis_run_ttl_exceeded now run =
    if not (completed run.status.phase)
    then false
    else exceeded_by now run.status.phase run.status.completed_at run.spec.ttl_strategy
