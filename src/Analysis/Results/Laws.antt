-- ===== src/Analysis/Results/Laws.antt =====
-- Laws of the results by name, and of the order of phases.
use intuit_argo_rollouts_dem.Prelude.{
  ◌≤◌, ◌≡◌, refl, true, Option, none, some, List, [], ◌∷◌, String, str_eq, eq_iff, if◌then◌else◌,
  arith, ◌==◌,
}
use intuit_argo_rollouts_dem.Analysis.Types.{
  AnalysisPhase, unset, phase_code, MetricResult, AnalysisRun,
}
use intuit_argo_rollouts_dem.Analysis.Results.{
  status_index, is_worse, worst, find_result, get_result, put_result, set_result,
}

pub find_result-put_result :
    (n : String) (r : MetricResult) (rs : List MetricResult)
    → find_result n (put_result r rs) ≡ (if str_eq r.name n then some r else find_result n rs)
unfolding find_result put_result
find_result-put_result n r [] = refl
find_result-put_result n r (x ∷ rs) =
    ground
      (arith, eq_iff x.name n, eq_iff x.name r.name, eq_iff r.name n, find_result-put_result n r rs)

pub get_result-set_result :
    (n : String) (run : AnalysisRun) (r : MetricResult)
    → get_result (set_result run r) n ≡ (if str_eq r.name n then some r else get_result run n)
unfolding get_result set_result
get_result-set_result n run r = find_result-put_result n r run.status.metric_results

find_result-name :
    (n : String) (rs : List MetricResult) (r : MetricResult)
    → find_result n rs ≡ some r
    → r.name ≡ n
unfolding find_result
find_result-name n [] r h = ground arith
find_result-name n (x ∷ rs) r h = ground (arith, eq_iff x.name n, find_result-name n rs r)

pub get_result-name :
    (n : String) (run : AnalysisRun) (r : MetricResult) → get_result run n ≡ some r → r.name ≡ n
unfolding get_result
get_result-name n run r h = find_result-name n run.status.metric_results r h

-- The phase that a run records for a metric, `unset` where it has no result.
abbrev pub phase_of : Option MetricResult → AnalysisPhase
phase_of none = unset
phase_of (some r) = r.phase

abbrev pub phase_at : AnalysisRun → String → AnalysisPhase
phase_at run n = phase_of (get_result run n)

pub phase_code-injective : (p q : AnalysisPhase) → (phase_code p == phase_code q) ≡ true → p ≡ q
phase_code-injective p q h = ground arith

-- The worse of two phases is at least as bad as each, and is one of the two.
pub worst_bound :
    (p q : AnalysisPhase)
    → (status_index p ≤ status_index (worst p q)) × (status_index q ≤ status_index (worst p q))
unfolding worst is_worse
worst_bound p q = ground arith
