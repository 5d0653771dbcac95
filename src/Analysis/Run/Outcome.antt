-- ===== src/Analysis/Run/Outcome.antt =====
-- The phase that assessRunStatus returns, against the phases it leaves on the metrics.
use intuit_argo_rollouts_dem.Prelude.{
  ◌≡◌, ◌≢◌, ◌≤◌, refl, sym, ◌∙◌, Bool, true, false, List, [], ◌∷◌, String, eq_iff, ◌⊎◌, arith, inl,
  inr, All, Any, All-map, Any-map,
}
use intuit_argo_rollouts_dem.Analysis.Types.{
  AnalysisPhase, unset, successful, completed, Library, Time, Metric, AnalysisRun,
}
use intuit_argo_rollouts_dem.Analysis.Results.{status_index, is_bad, is_terminating, get_result}
use intuit_argo_rollouts_dem.Analysis.Results.Laws.{phase_at}
use intuit_argo_rollouts_dem.Analysis.Run.Defs.{
  Assessment, visit, assess_loop, initial_assessment, conclude, assess_run_status,
}
use intuit_argo_rollouts_dem.Analysis.Run.Phases.{phase_at-visit, assess_loop_keeps}
use intuit_argo_rollouts_dem.Analysis.Run.Visit.{IsSettled, visit-VisitedAs, visit-IsSettled}

-- No two metrics share a name: what ValidateMetrics accepts.
abbrev pub UniqueNames : List Metric → Type 0
UniqueNames [] = Unit
UniqueNames (m ∷ ms) = All (λ k. k.name ≢ m.name) ms × UniqueNames ms

-- Every metric has completed in the run.
abbrev pub AllCompleted : AnalysisRun → List Metric → Type 0
AllCompleted run = All (λ m. completed (phase_at run m.name) ≡ true)

-- Every completed metric outside dry-run mode is at most as bad as `p`.
abbrev pub NoneWorse : (String → Bool) → AnalysisRun → AnalysisPhase → List Metric → Type 0
NoneWorse dry_run run p =
    All (λ m. dry_run m.name ≡ false → status_index (phase_at run m.name) ≤ status_index p)

-- Some metric outside dry-run mode has completed with phase `p`.
abbrev pub Attained : (String → Bool) → AnalysisRun → AnalysisPhase → List Metric → Type 0
Attained dry_run run p =
    Any (λ m. (dry_run m.name ≡ false) × (completed p ≡ true) × (phase_at run m.name ≡ p))

module _ (lib : Library) (dry_run : String → Bool) (terminating : Bool) where
  abbrev loop : List Metric → Assessment → Assessment
  loop = assess_loop lib dry_run terminating

  assess_loop_grows :
      (ms : List Metric) (a : Assessment)
      → IsSettled a.worst_status
      → status_index a.worst_status ≤ status_index (loop ms a).worst_status
  unfolding assess_loop
  assess_loop_grows [] a s = omega arith
  assess_loop_grows (m ∷ ms) a s = omega (
    arith,
    (visit-VisitedAs lib dry_run terminating m a s).grows,
    assess_loop_grows ms (visit lib dry_run terminating m a)
        (visit-IsSettled lib dry_run terminating m a s),
  )

  -- The flag is up at the end only if every metric was found completed, and stays completed.
  assess_loop_flag :
      (ms : List Metric) (a : Assessment)
      → IsSettled a.worst_status
      → (loop ms a).everything_completed ≡ true
      → (a.everything_completed ≡ true)
        × AllCompleted (loop ms a).run ms
        × NoneWorse dry_run (loop ms a).run (loop ms a).worst_status ms
  unfolding assess_loop
  assess_loop_flag [] a s h = (h, tt, tt)
  assess_loop_flag (m ∷ ms) a s h =
      let b = visit lib dry_run terminating m a in
      let s' = visit-IsSettled lib dry_run terminating m a s in
      let v = visit-VisitedAs lib dry_run terminating m a s in
      let (up, all, none_worse) = assess_loop_flag ms b s' h in
      let (before, done) = v.flag up in
      let kept = assess_loop_keeps lib dry_run terminating ms b m.name done in
      (
        before,
        (rw kept done, all),
        (
          (λ live. rw kept (omega (arith, v.covers live done, assess_loop_grows ms b s'))),
          none_worse,
        ),
      )

  -- The worst phase is the one before the loop, Successful, or that of a completed live metric.
  assess_loop_source :
      (ms : List Metric) (a : Assessment)
      → IsSettled a.worst_status
      → let c = loop ms a in
        (c.worst_status ≡ a.worst_status)
        ⊎ ((c.worst_status ≡ successful) ⊎ Attained dry_run c.run c.worst_status ms)
  unfolding assess_loop
  assess_loop_source [] a s = inl refl
  assess_loop_source (m ∷ ms) a s =
      let b = visit lib dry_run terminating m a in
      elim (assess_loop_source ms b (visit-IsSettled lib dry_run terminating m a s)) [
        | inr (inl e) ↦ inr (inl e)
        | inr (inr later) ↦ inr (inr (inr later))
        | inl same ↦ elim ((visit-VisitedAs lib dry_run terminating m a s).source) [
          | inl e ↦ inl (same ∙ e)
          | inr (inl e) ↦ inr (inl (same ∙ e))
          | inr (inr (live, done, e)) ↦ inr (
              inr (
                inl (
                  live,
                  rw (same, e) done,
                  assess_loop_keeps lib dry_run terminating ms b m.name done ∙ sym (same ∙ e),
                )))
        ]
      ]

  -- A metric that no later metric is named like keeps its phase in the rest of the loop.
  assess_loop_elsewhere :
      (ms : List Metric) (a : Assessment) (n : String)
      → All (λ k. k.name ≢ n) ms
      → phase_at (loop ms a).run n ≡ phase_at a.run n
  unfolding assess_loop
  assess_loop_elsewhere [] a n h = refl
  assess_loop_elsewhere (m ∷ ms) a n (ne, h) =
      let b = visit lib dry_run terminating m a in
      assess_loop_elsewhere ms b n h
      ∙ ground (arith, phase_at-visit lib dry_run terminating m a n, eq_iff m.name n)

  -- With unique names, metrics that have all completed leave the flag up and a worst phase.
  assess_loop_completes :
      (ms : List Metric) (a : Assessment)
      → IsSettled a.worst_status
      → UniqueNames ms
      → a.everything_completed ≡ true
      → AllCompleted (loop ms a).run ms
      → ((loop ms a).everything_completed ≡ true)
        × ((ms ≢ []) ⊎ (completed a.worst_status ≡ true)
            → completed (loop ms a).worst_status ≡ true)
  unfolding assess_loop
  assess_loop_completes [] a s u f all = (f, λ e. ground arith)
  assess_loop_completes (m ∷ ms) a s (fresh, u) f (done, all) =
      let b = visit lib dry_run terminating m a in
      let v = visit-VisitedAs lib dry_run terminating m a s in
      let done' = rw (assess_loop_elsewhere ms b m.name fresh) at done in
      let (flag, settled) =
        assess_loop_completes ms b (visit-IsSettled lib dry_run terminating m a s) u
          (v.flag_kept f done') all in
      (flag, λ _. settled (inr (v.is_set done')))

  -- What follows the loop leaves the results as they are.
  conclude-results :
      (c : Assessment)
      → (conclude lib dry_run terminating c).0.status.metric_results ≡ c.run.status.metric_results
  unfolding conclude
  conclude-results c = ground arith

  phase_at-conclude :
      (c : Assessment) (n : String)
      → phase_at (conclude lib dry_run terminating c).0 n ≡ phase_at c.run n
  unfolding get_result
  phase_at-conclude c n = rw (conclude-results c)

  conclude-completed :
      (c : Assessment)
      → terminating ≡ false
      → completed (conclude lib dry_run terminating c).1 ≡ true
      → (c.everything_completed ≡ true) × ((conclude lib dry_run terminating c).1 ≡ c.worst_status)
  unfolding conclude completed
  conclude-completed c t h = ground arith

  conclude_bad :
      (c : Assessment)
      → is_bad (conclude lib dry_run terminating c).1 ≡ true
      → (conclude lib dry_run terminating c).1 ≡ c.worst_status
  unfolding conclude
  conclude_bad c h = ground arith

  conclude_settles :
      (c : Assessment)
      → c.everything_completed ≡ true
      → completed c.worst_status ≡ true
      → (conclude lib dry_run terminating c).1 ≡ c.worst_status
  unfolding conclude completed
  conclude_settles c f h = ground arith

bad-ne-unset : (p : AnalysisPhase) → is_bad p ≡ true → p ≢ unset
bad-ne-unset p h = ground arith

bad-ne-successful : (p : AnalysisPhase) → is_bad p ≡ true → p ≢ successful
bad-ne-successful p h = ground arith

module _ (lib : Library) (dry_run : String → Bool) (now : Time) (run : AnalysisRun)
    (ms : List Metric) where
  -- The run and the phase after the assessment.
  abbrev after : AnalysisRun × AnalysisPhase × String
  after = assess_run_status lib dry_run now run ms

  abbrev looped : Assessment
  looped = assess_loop lib dry_run (is_terminating run) ms (initial_assessment now run)

  initial_IsSettled : IsSettled (initial_assessment now run).worst_status
  unfolding initial_assessment
  initial_IsSettled = inl refl

  module _ (n : String) where
    phase_at-after : phase_at after.0 n ≡ phase_at looped.run n
    unfolding assess_run_status
    phase_at-after = phase_at-conclude lib dry_run (is_terminating run) looped n

  -- If a run that is not terminating is assessed as completed, then every one of its metrics has
  -- completed, and none outside dry-run mode has a worse phase than the run is given.
  pub assess_run_status_worst :
      is_terminating run ≡ false
      → completed after.1 ≡ true
      → AllCompleted after.0 ms × NoneWorse dry_run after.0 after.1 ms
  unfolding assess_run_status
  assess_run_status_worst t h =
      let (up, e) = conclude-completed lib dry_run (is_terminating run) looped t h in
      let (_, all, none_worse) =
        assess_loop_flag lib dry_run (is_terminating run) ms (initial_assessment now run)
          initial_IsSettled up in
      (
        All-map (λ m d. rw (phase_at-after m.name) d) ms all,
        All-map (λ m d live. rw (phase_at-after m.name, e) (d live)) ms none_worse,
      )

  -- A run is assessed as Failed, Error or Inconclusive only if some metric outside dry-run mode has
  -- completed with that very phase, whether the run is terminating or not.
  pub assess_run_status_source : is_bad after.1 ≡ true → Attained dry_run after.0 after.1 ms
  unfolding assess_run_status
  assess_run_status_source h =
      let e = conclude_bad lib dry_run (is_terminating run) looped h in
      elim (assess_loop_source lib dry_run (is_terminating run) ms (initial_assessment now run)
        initial_IsSettled) [
          | inl unset_still ↦ absurd (bad-ne-unset _ (rw e at h) unset_still)
          | inr (inl good) ↦ absurd (bad-ne-successful _ (rw e at h) good)
          | inr (inr found) ↦
              Any-map (λ m (live, done, p). (live, rw e done, rw (phase_at-after m.name, e) p)) ms
                found
        ]

  -- If the metrics have different names, there is at least one, and all have completed once they are
  -- assessed, then the run is assessed as completed.
  pub assess_run_status_completes :
      UniqueNames ms → ms ≢ [] → AllCompleted after.0 ms → completed after.1 ≡ true
  unfolding assess_run_status
  assess_run_status_completes u some_metric all =
      let (flag, settled) =
        assess_loop_completes lib dry_run (is_terminating run) ms (initial_assessment now run)
          initial_IsSettled u (unfold initial_assessment in refl)
          (All-map (λ m d. rw (phase_at-after m.name) at d) ms all) in
      let done = settled (inl some_metric) in
      rw (conclude_settles lib dry_run (is_terminating run) looped flag done) done
