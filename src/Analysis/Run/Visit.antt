-- ===== src/Analysis/Run/Visit.antt =====
-- What one round of the loop does to the worst phase and to the completion flag.
use intuit_argo_rollouts_dem.Prelude.{
  ◌≡◌, ◌≤◌, Bool, true, false, Option, none, some, String, eq_iff, ◌⊎◌, arith,
}
use intuit_argo_rollouts_dem.Analysis.Types.{
  AnalysisPhase, unset, successful, completed, Library, MetricResult, Metric,
}
use intuit_argo_rollouts_dem.Analysis.Results.{status_index, is_worse, get_result}
use intuit_argo_rollouts_dem.Analysis.Results.Laws.{phase_at}
use intuit_argo_rollouts_dem.Analysis.Run.Defs.{Assessment, visit_result, visit}
use intuit_argo_rollouts_dem.Analysis.Run.Phases.{assessed, phase_at-visit}

-- `b` is the assessment after a metric was visited and found at phase `p`, where the flag and the
-- worst phase were `flag_before` and `worst_before`.
pub record VisitedAs (dry : Bool) (p : AnalysisPhase) (flag_before : Bool)
    (worst_before : AnalysisPhase) (b : Assessment) : Type 0 where
  pub flag : b.everything_completed ≡ true → (flag_before ≡ true) × (completed p ≡ true)
  pub flag_kept : flag_before ≡ true → completed p ≡ true → b.everything_completed ≡ true
  pub grows : status_index worst_before ≤ status_index b.worst_status
  pub covers : dry ≡ false → completed p ≡ true → status_index p ≤ status_index b.worst_status
  pub is_set : completed p ≡ true → completed b.worst_status ≡ true
  pub stays : completed worst_before ≡ true → completed b.worst_status ≡ true
  pub source :
      (b.worst_status ≡ worst_before)
      ⊎ ((b.worst_status ≡ successful)
          ⊎ ((dry ≡ false) × (completed p ≡ true) × (b.worst_status ≡ p)))

-- No phase yet, or a completed one.
abbrev pub IsSettled : AnalysisPhase → Type 0
IsSettled p = (p ≡ unset) ⊎ (completed p ≡ true)

module _ (lib : Library) (dry_run : String → Bool) (terminating : Bool) where
  visit_result-VisitedAs :
      (metric : Metric) (a : Assessment) (r : Option MetricResult) (flag : Bool) (w : AnalysisPhase)
      → a.everything_completed ≡ flag
      → a.worst_status ≡ w
      → IsSettled w
      → VisitedAs
          (dry_run metric.name)
          (assessed lib terminating metric r)
          flag
          w
          (visit_result lib dry_run terminating metric a r)
  unfolding visit_result assessed completed is_worse
  visit_result-VisitedAs metric a none flag w e f s = record {
    flag = ground arith;
    flag_kept = ground arith;
    grows = ground arith;
    covers = ground arith;
    is_set = ground arith;
    stays = ground arith;
    source = ground arith;
  }
  visit_result-VisitedAs metric a (some r) flag w e f s = record {
    flag = ground arith;
    flag_kept = ground arith;
    grows = ground arith;
    covers = ground arith;
    is_set = ground arith;
    stays = ground arith;
    source = ground arith;
  }

  assessed-phase_at :
      (metric : Metric) (a : Assessment)
      → assessed lib terminating metric (get_result a.run metric.name)
        ≡ phase_at (visit lib dry_run terminating metric a).run metric.name
  assessed-phase_at metric a = ground (
    arith,
    phase_at-visit lib dry_run terminating metric a metric.name,
    eq_iff metric.name metric.name,
  )

  visit-assessed :
      (metric : Metric) (a : Assessment)
      → IsSettled a.worst_status
      → VisitedAs
          (dry_run metric.name)
          (assessed lib terminating metric (get_result a.run metric.name))
          a.everything_completed
          a.worst_status
          (visit lib dry_run terminating metric a)
  unfolding visit
  visit-assessed metric a s =
      visit_result-VisitedAs metric _ (get_result a.run metric.name) a.everything_completed
        a.worst_status (ground arith) (ground arith) s

  pub visit-VisitedAs :
      (metric : Metric) (a : Assessment)
      → IsSettled a.worst_status
      → let b = visit lib dry_run terminating metric a in
        VisitedAs
          (dry_run metric.name)
          (phase_at b.run metric.name)
          a.everything_completed
          a.worst_status
          b
  visit-VisitedAs metric a s = rw assessed-phase_at at (visit-assessed metric a s)

  pub visit-IsSettled :
      (metric : Metric) (a : Assessment)
      → IsSettled a.worst_status
      → IsSettled (visit lib dry_run terminating metric a).worst_status
  unfolding completed
  visit-IsSettled metric a s = ground (arith, visit-VisitedAs metric a s)
