-- ===== src/Analysis/Tasks/Planned.antt =====
-- What is due for a metric is generated.
use intuit_argo_rollouts_dem.Prelude.{
  ◌≡◌, refl, ◌∙◌, true, false, Option, none, some, inl, inr, ◌+ℤ◌, ltb_ℤ, str_eq, arith, Bool-cases,
}
use intuit_argo_rollouts_dem.Analysis.Types.{
  Library, Time, Measurement, MetricResult, Metric, AnalysisRun,
}
use intuit_argo_rollouts_dem.Analysis.Results.{is_terminating, get_result, last_measurement}
use intuit_argo_rollouts_dem.Analysis.Assess.Counts.{count_reached-eq}
use intuit_argo_rollouts_dem.Analysis.Tasks.{
  waits_to_resume, delay_over, reached_of, overdue, first_task, next_task, after_finish, after_last,
  task_for,
}
use intuit_argo_rollouts_dem.Analysis.Tasks.Due.{
  IsShort, IsInterval, StartsNew, IsDue, Task, retry_interval-eq,
}

module _ (lib : Library) (now : Time) (run : AnalysisRun) where
  -- The other direction: what is due is generated.
  delay_over-true :
      (start delay : Time)
      → ltb_ℤ now (start +ℤ delay) ≡ false
      → delay_over now (some start) (some delay) ≡ true
  unfolding delay_over
  delay_over-true start delay h = ground (arith, h)

  first_task-generated :
      (s m : Metric)
      → StartsNew lib now run m none
      → first_task lib now run s m ≡ some (Task lib now run s none)
  unfolding first_task
  first_task-generated s m (inl y) = rw y refl
  first_task-generated s m (inr (start, delay, e, f, h)) =
      elim (Bool-cases (str_eq m.initial_delay "")) [
        | inl y ↦ rw y refl
        | inr n ↦ rw (n, e, f, delay_over-true start delay h) refl
      ]

  reached_of-false :
      (m : Metric) (r : Option MetricResult) → IsShort lib m r → reached_of lib m r ≡ false
  unfolding reached_of
  reached_of-false m none h = refl
  reached_of-false m (some r) h = rw (count_reached-eq lib m r) h

  next_task-generated :
      (s m : Metric) (last : Measurement) (finished i : Time)
      → IsShort lib m (get_result run m.name)
      → IsInterval lib m last i
      → ltb_ℤ (finished +ℤ i) now ≡ true
      → next_task lib now run s m last finished ≡ some (Task lib now run s none)
  unfolding next_task overdue
  next_task-generated s m last finished i short k h =
      rw
        (
          reached_of-false m (get_result run m.name) short,
          retry_interval-eq lib now run m last ∙ k,
          h,
        )
        refl

  after_last-generated :
      (s m : Metric) (last : Option Measurement)
      → is_terminating run ≡ false
      → StartsNew lib now run m last
      → after_last lib now run (is_terminating run) s m last ≡ some (Task lib now run s none)
  unfolding after_last after_finish
  after_last-generated s m none n h = rw n (first_task-generated s m h)
  after_last-generated s m (some last) n (finished, i, e, short, k, late) =
      rw (e, n) (next_task-generated s m last finished i short k late)

  resumed :
      (s m : Metric) (last : Measurement)
      → last.finished_at ≡ none
      → waits_to_resume now last.resume_at ≡ false
      → after_last lib now run (is_terminating run) s m (some last)
        ≡ some (Task lib now run s (some last))
  unfolding after_last after_finish
  resumed s m last f w = rw (f, w) refl

  pub task_for-generated :
      (s m : Metric) (x : Option Measurement)
      → IsDue lib now run m x
      → task_for lib now run (is_terminating run) s m ≡ some (Task lib now run s x)
  unfolding task_for
  task_for-generated s m none (n, k, h) =
      rw n (after_last-generated s m (last_measurement run m.name) k h)
  task_for-generated s m (some last) (n, e, f, w) = rw (n, e) (resumed s m last f w)
