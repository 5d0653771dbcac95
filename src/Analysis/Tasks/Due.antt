-- ===== src/Analysis/Tasks/Due.antt =====
-- When a task is due, and that what is generated for a metric is due.
use intuit_argo_rollouts_dem.Prelude.{
  ◌≡◌, refl, sym, ◌∙◌, true, false, Option, none, some, ◌⊎◌, inl, inr, pos, ◌+ℤ◌, ltb_ℤ, str_eq,
  ◌||◌, arith, Bool-cases, if◌then◌else◌,
}
use mathlib.Core.Option.{some-injective, none-ne-some}
use intuit_argo_rollouts_dem.Analysis.Types.{
  Library, Time, Duration, Measurement, MetricResult, Metric, AnalysisRun,
}
use intuit_argo_rollouts_dem.Analysis.Results.{
  is_terminating, get_result, metric_completed, last_measurement,
}
use intuit_argo_rollouts_dem.Analysis.Assess.Counts.{is_enough, count_reached-eq}
use intuit_argo_rollouts_dem.Analysis.Tasks.{
  MetricTask, is_error, waits_to_resume, delay_over, reached_of, overdue, retry_interval,
  first_task, next_task, after_finish, after_last, task_for,
}

-- Where there is a result, it has not got enough measurements.
abbrev pub IsShort : Library → Metric → Option MetricResult → Type 0
IsShort lib metric none = Unit
IsShort lib metric (some r) = is_enough lib metric r.count ≡ false

-- The time between two measurements: ten seconds after an error and where the metric has no interval.
abbrev pub IsInterval : Library → Metric → Measurement → Duration → Type 0
IsInterval lib metric last i =
    (if is_error last.phase || str_eq metric.interval ""
      then some (pos 10_000_000_000)
      else lib.parse_duration metric.interval)
    ≡ some i

module _ (lib : Library) (now : Time) (run : AnalysisRun) where
  -- When a metric with this last measurement is due for a new one.
  abbrev pub StartsNew : Metric → Option Measurement → Type 0
  StartsNew metric none =
      (str_eq metric.initial_delay "" ≡ true)
      ⊎ ((start : Time) × (delay : Duration) × (run.status.started_at ≡ some start)
          × (lib.parse_duration metric.initial_delay ≡ some delay)
          × (ltb_ℤ now (start +ℤ delay) ≡ false))
  StartsNew metric (some last) =
      (finished : Time) × (i : Duration) × (last.finished_at ≡ some finished)
      × IsShort lib metric (get_result run metric.name)
      × IsInterval lib metric last i
      × (ltb_ℤ (finished +ℤ i) now ≡ true)

  -- What is due for a metric: a new measurement, or the end of this one.
  abbrev pub IsDue : Metric → Option Measurement → Type 0
  IsDue metric none =
      (metric_completed run metric.name ≡ false)
      × (is_terminating run ≡ false)
      × StartsNew metric (last_measurement run metric.name)
  IsDue metric (some m) =
      (metric_completed run metric.name ≡ false)
      × (last_measurement run metric.name ≡ some m)
      × (m.finished_at ≡ none)
      × (waits_to_resume now m.resume_at ≡ false)

  abbrev pub Task : Metric → Option Measurement → MetricTask
  Task spec_metric m = record { metric = spec_metric; incomplete_measurement = m }

  -- One direction: what is generated is due.
  delay_over-starts :
      (started : Option Time) (delay : Option Duration)
      → delay_over now started delay ≡ true
      → (start : Time) × (d : Duration) × (started ≡ some start)
        × (delay ≡ some d)
        × (ltb_ℤ now (start +ℤ d) ≡ false)
  unfolding delay_over
  delay_over-starts (some start) (some d) h = (start, d, refl, refl, ground (arith, h))
  delay_over-starts (some start) none h = absurd (ground (arith, h))
  delay_over-starts none none h = absurd (ground (arith, h))
  delay_over-starts none (some d) h = absurd (ground (arith, h))

  first_task-IsDue :
      (s m : Metric) (t : MetricTask)
      → first_task lib now run s m ≡ some t
      → (Task s none ≡ t) × StartsNew m none
  unfolding first_task
  first_task-IsDue s m t h = elim (Bool-cases (str_eq m.initial_delay "")) [
    | inl y ↦ (some-injective (Task s none) t (rw y at h), inl y)
    | inr n ↦
        elim (Bool-cases
          (delay_over now run.status.started_at (lib.parse_duration m.initial_delay))) [
            | inl y ↦ (
              some-injective (Task s none) t (rw (n, y) at h),
              inr (delay_over-starts run.status.started_at (lib.parse_duration m.initial_delay) y),
            )
            | inr z ↦ absurd (none-ne-some t (rw (n, z) at h))
          ]
  ]

  reached_of-IsShort :
      (m : Metric) (r : Option MetricResult) → reached_of lib m r ≡ false → IsShort lib m r
  unfolding reached_of
  reached_of-IsShort m none h = tt
  reached_of-IsShort m (some r) h = rw (count_reached-eq lib m r) at h

  overdue-starts :
      (finished : Time) (i : Option Duration)
      → overdue now finished i ≡ true
      → (d : Duration) × (i ≡ some d) × (ltb_ℤ (finished +ℤ d) now ≡ true)
  unfolding overdue
  overdue-starts finished none h = absurd (ground (arith, h))
  overdue-starts finished (some d) h = (d, refl, h)

  pub retry_interval-eq :
      (m : Metric) (last : Measurement)
      → retry_interval lib now run m last ≡ (
          if is_error last.phase || str_eq m.interval ""
          then some (pos 10_000_000_000)
          else lib.parse_duration m.interval)
  unfolding retry_interval
  retry_interval-eq m last = ground arith

  next_task-IsDue :
      (s m : Metric) (last : Measurement) (finished : Time) (t : MetricTask)
      → last.finished_at ≡ some finished
      → next_task lib now run s m last finished ≡ some t
      → (Task s none ≡ t) × StartsNew m (some last)
  unfolding next_task
  next_task-IsDue s m last finished t e h =
      elim (Bool-cases (reached_of lib m (get_result run m.name))) [
        | inl y ↦ absurd (none-ne-some t (rw y at h))
        | inr n ↦ elim (Bool-cases (overdue now finished (retry_interval lib now run m last))) [
          | inl y ↦
              let (i, k, late) = overdue-starts finished (retry_interval lib now run m last) y in
              (
                some-injective (Task s none) t (rw (n, y) at h),
                (
                  finished,
                  i,
                  e,
                  reached_of-IsShort m (get_result run m.name) n,
                  sym (retry_interval-eq m last) ∙ k,
                  late,
                ),
              )
          | inr z ↦ absurd (none-ne-some t (rw (n, z) at h))
        ]
      ]

  abbrev pub IsTaskFor : Metric → Metric → MetricTask → Type 0
  IsTaskFor s m t = (t.metric ≡ s) × IsDue m t.incomplete_measurement

  after_finish-IsDue :
      (s m : Metric) (t : MetricTask) (last : Measurement)
      → metric_completed run m.name ≡ false
      → last_measurement run m.name ≡ some last
      → (finished : Option Time) → last.finished_at ≡ finished
      → after_finish lib now run (is_terminating run) s m last finished ≡ some t
      → IsTaskFor s m t
  unfolding after_finish
  after_finish-IsDue s m t last n e none f h =
      elim (Bool-cases (waits_to_resume now last.resume_at)) [
        | inl y ↦ absurd (none-ne-some t (rw y at h))
        | inr w ↦ rw⁻¹ (some-injective (Task s (some last)) t (rw w at h)) (refl, (n, e, f, w))
      ]
  after_finish-IsDue s m t last n e (some finished) f h = elim (Bool-cases (is_terminating run)) [
    | inl y ↦ absurd (none-ne-some t (rw y at h))
    | inr z ↦
        let (same, starts) = next_task-IsDue s m last finished t f (rw z at h) in
        rw⁻¹ same (refl, (n, z, rw e starts))
  ]

  after_last-IsDue :
      (s m : Metric) (t : MetricTask)
      → metric_completed run m.name ≡ false
      → (last : Option Measurement) → last_measurement run m.name ≡ last
      → after_last lib now run (is_terminating run) s m last ≡ some t
      → IsTaskFor s m t
  unfolding after_last
  after_last-IsDue s m t n none e h = elim (Bool-cases (is_terminating run)) [
    | inl y ↦ absurd (none-ne-some t (rw y at h))
    | inr z ↦
        let (same, starts) = first_task-IsDue s m t (rw z at h) in
        rw⁻¹ same (refl, (n, z, rw e starts))
  ]
  after_last-IsDue s m t n (some last) e h =
      after_finish-IsDue s m t last n e last.finished_at refl h

  pub task_for-IsDue :
      (s m : Metric) (t : MetricTask)
      → task_for lib now run (is_terminating run) s m ≡ some t
      → IsTaskFor s m t
  unfolding task_for
  task_for-IsDue s m t h = elim (Bool-cases (metric_completed run m.name)) [
    | inl y ↦ absurd (none-ne-some t (rw y at h))
    | inr n ↦ after_last-IsDue s m t n (last_measurement run m.name) refl (rw n at h)
  ]
