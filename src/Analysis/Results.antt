-- ===== src/Analysis/Results.antt =====
-- The results of a run by metric name, and the order of phases (utils/analysis/helpers.go).
pub mod Laws
use intuit_argo_rollouts_dem.Prelude.{
  ℕ, ◌+◌, Bool, true, false, Option, none, some, List, [], ◌∷◌, String, str_eq, last?, ltb, ◌==◌,
  if◌then◌else◌,
}
use intuit_argo_rollouts_dem.Analysis.Types.{
  AnalysisPhase, successful, running, pending, inconclusive, error, failed, phase_code, completed,
  Measurement, MetricResult, AnalysisRun,
}

abbrev pub analysis_status_order : List AnalysisPhase
analysis_status_order = successful ∷ running ∷ pending ∷ inconclusive ∷ error ∷ failed ∷ []

-- One loop of `IsWorse` for each of its two indices: the last position of the phase, 0 if none.
index_from : ℕ → ℕ → AnalysisPhase → List AnalysisPhase → ℕ
index_from i found p [] = found
index_from i found p (code ∷ codes) =
    index_from (i + 1) (if phase_code p == phase_code code then i else found) p codes

unfoldable pub status_index : AnalysisPhase → ℕ
unfolding index_from
status_index p = index_from 0 0 p analysis_status_order

-- Whether `new` is a worse phase than `current`.
unfoldable pub is_worse : AnalysisPhase → AnalysisPhase → Bool
unfolding status_index
is_worse current new = ltb (status_index current) (status_index new)

unfoldable pub worst : AnalysisPhase → AnalysisPhase → AnalysisPhase
unfolding is_worse
worst left right = if is_worse left right then right else left

abbrev pub is_bad : AnalysisPhase → Bool
is_bad failed = true
is_bad error = true
is_bad inconclusive = true
is_bad _ = false

-- The loop of `IsTerminating`.
unfoldable pub any_bad : List MetricResult → Bool
any_bad [] = false
any_bad (res ∷ rest) =
    let more = any_bad rest in if res.dry_run then more else if is_bad res.phase then true else more

unfoldable pub is_terminating : AnalysisRun → Bool
unfolding any_bad
is_terminating run = if run.spec.terminate then true else any_bad run.status.metric_results

-- The loop of `GetResult`, over the results.
unfoldable pub find_result : String → List MetricResult → Option MetricResult
find_result name [] = none
find_result name (r ∷ rs) = if str_eq r.name name then some r else find_result name rs

unfoldable pub get_result : AnalysisRun → String → Option MetricResult
unfolding find_result
get_result run name = find_result name run.status.metric_results

-- The loop of `SetResult`, over the results.
unfoldable pub put_result : MetricResult → List MetricResult → List MetricResult
put_result result [] = result ∷ []
put_result result (r ∷ rs) =
    if str_eq r.name result.name then result ∷ rs else r ∷ put_result result rs

unfoldable pub set_result : AnalysisRun → MetricResult → AnalysisRun
unfolding put_result
set_result run result = record run {
  status = record run.status { metric_results = put_result result run.status.metric_results };
}

unfoldable pub phase_completed : Option MetricResult → Bool
unfolding completed
phase_completed none = false
phase_completed (some result) = completed result.phase

unfoldable pub metric_completed : AnalysisRun → String → Bool
unfolding get_result phase_completed
metric_completed run name = phase_completed (get_result run name)

unfoldable pub last_of : Option MetricResult → Option Measurement
last_of none = none
last_of (some result) = last? result.measurements

unfoldable pub last_measurement : AnalysisRun → String → Option Measurement
unfolding get_result last_of
last_measurement run name = last_of (get_result run name)
