-- ===== src/Analysis/Run/Phases.antt =====
-- What the loop over the metrics does to the recorded phases.
use intuit_argo_rollouts_dem.Prelude.{
  ◌≡◌, refl, ◌∙◌, Bool, true, Option, none, some, List, [], ◌∷◌, String, str_eq, eq_iff,
  if◌then◌else◌, arith, Bool-cases, Option-cases, inl, inr, ◌<>◌,
}
use intuit_argo_rollouts_dem.Analysis.Types.{
  AnalysisPhase, unset, completed, Library, MetricResult, Metric, AnalysisRun,
}
use intuit_argo_rollouts_dem.Analysis.Results.{get_result, set_result, last_measurement}
use intuit_argo_rollouts_dem.Analysis.Results.Laws.{
  get_result-set_result, get_result-name, phase_at, phase_code-injective,
}
use intuit_argo_rollouts_dem.Analysis.Assess.{assess_limits, assess_metric_status}
use intuit_argo_rollouts_dem.Analysis.Run.Defs.{
  Assessment, increment, phase_name, message_or, transition, visit_result, visit, assess_loop,
}

-- Storing a result changes the phase of its own metric only.
phase_at-set_result :
    (run : AnalysisRun) (r : MetricResult) (n : String)
    → phase_at (set_result run r) n ≡ (if str_eq r.name n then r.phase else phase_at run n)
phase_at-set_result run r n = rw get_result-set_result (ground arith)

-- After a metric is assessed its recorded phase is the assessed one.
phase_at-transition :
    (name : String) (status : AnalysisPhase) (run : AnalysisRun) (r : MetricResult) (n : String)
    → get_result run name ≡ some r
    → phase_at (transition name status run r).0 n
      ≡ (if str_eq name n then status else phase_at run n)
unfolding transition
phase_at-transition name status run r n h = ground (
  arith,
  eq_iff name n,
  eq_iff r.name n,
  get_result-name name run r h,
  phase_code-injective r.phase status,
  get_result-set_result n run
      (record r { phase = status; message = message_or r.message (last_measurement run name) }),
)

-- The result that an assessment hands on has the assessed phase, and its metric's name.
transition_result :
    (name : String) (status : AnalysisPhase) (run : AnalysisRun) (r : MetricResult)
    → ((transition name status run r).1.phase ≡ status)
      × ((transition name status run r).1.name ≡ r.name)
unfolding transition
transition_result name status run r = ground (arith, phase_code-injective r.phase status)

-- The phase that the loop gives a metric: that of its assessment, or none without a result.
unfoldable pub assessed : Library → Bool → Metric → Option MetricResult → AnalysisPhase
assessed lib terminating metric none = unset
assessed lib terminating metric (some r) = assess_metric_status lib metric r terminating

module _ (lib : Library) (dry_run : String → Bool) (terminating : Bool) where
  phase_at-visit_result :
      (metric : Metric) (a : Assessment) (n : String)
      → phase_at
          (visit_result lib dry_run terminating metric a (get_result a.run metric.name)).run
          n
        ≡ (if str_eq metric.name n
            then assessed lib terminating metric (get_result a.run metric.name)
            else phase_at a.run n)
  unfolding visit_result assessed
  phase_at-visit_result metric a n = elim (Option-cases (get_result a.run metric.name)) [
    | inl e ↦ rw (e, visit_result) (ground (arith, eq_iff metric.name n))
    | inr (r, e) ↦
        let status = assess_metric_status lib metric r terminating in
        let t = transition metric.name status a.run r in
        rw (e, visit_result)
          (ground (
            arith,
            phase_at-transition metric.name status a.run r n e,
            transition_result metric.name status a.run r,
            get_result-name metric.name a.run r e,
            phase_at-set_result t.0
                (record t.1 {
                  message =
                      "Metric assessed "
                      <> phase_name status
                      <> " due to "
                      <> (assess_limits lib metric t.1).1;
                })
                n,
          ))
  ]

  pub phase_at-visit :
      (metric : Metric) (a : Assessment) (n : String)
      → phase_at (visit lib dry_run terminating metric a).run n ≡ (
          if str_eq metric.name n
          then assessed lib terminating metric (get_result a.run metric.name)
          else phase_at a.run n)
  unfolding visit
  phase_at-visit metric a n = elim (Bool-cases (dry_run metric.name)) [
    | inl e ↦ rw e (
        phase_at-visit_result metric
          (record a {
            dry_run_summary = record a.dry_run_summary {
              count = increment a.dry_run_summary.count;
            };
          })
          n)
    | inr e ↦ rw e (
        phase_at-visit_result metric
          (record a {
            run_summary = record a.run_summary { count = increment a.run_summary.count };
          })
          n)
  ]

  -- A completed metric keeps its phase, whichever metric is visited.
  pub visit_keeps :
      (metric : Metric) (a : Assessment) (n : String)
      → completed (phase_at a.run n) ≡ true
      → phase_at (visit lib dry_run terminating metric a).run n ≡ phase_at a.run n
  unfolding assessed assess_metric_status
  visit_keeps metric a n h = ground (arith, phase_at-visit metric a n, eq_iff metric.name n)

  pub assess_loop_keeps :
      (metrics : List Metric) (a : Assessment) (n : String)
      → completed (phase_at a.run n) ≡ true
      → phase_at (assess_loop lib dry_run terminating metrics a).run n ≡ phase_at a.run n
  unfolding assess_loop
  assess_loop_keeps [] a n h = refl
  assess_loop_keeps (m ∷ ms) a n h =
      let k = visit_keeps m a n h in
      assess_loop_keeps ms (visit lib dry_run terminating m a) n (rw k h) ∙ k
