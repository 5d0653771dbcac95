-- ===== src/Analysis/Schedule/Due.antt =====
-- When a metric is due, in terms of its last measurement.
use intuit_argo_rollouts_dem.Prelude.{
  ◌≡◌, refl, sym, ◌∙◌, Bool, true, false, Option, none, some, pos, ◌+ℤ◌, inl, inr, str_eq,
  Bool-cases, if◌then◌else◌,
}
use mathlib.Core.Option.{some-injective, none-ne-some}
use intuit_argo_rollouts_dem.Analysis.Types.{
  Library, Time, Duration, Measurement, MetricResult, Metric, AnalysisRun,
}
use intuit_argo_rollouts_dem.Analysis.Results.{get_result, metric_completed, last_measurement}
use intuit_argo_rollouts_dem.Analysis.Assess.Counts.{is_enough, count_reached-eq}
use intuit_argo_rollouts_dem.Analysis.Tasks.{is_error}
use intuit_argo_rollouts_dem.Analysis.Schedule.{
  start_or, plus, reached_of, due_interval, after_finish, due_after, due_time,
}

-- There is no result with enough measurements.
abbrev pub is_short : Library → Metric → Option MetricResult → Bool
is_short lib metric none = true
is_short lib metric (some r) = if is_enough lib metric r.count then false else true

module _ (lib : Library) (now : Time) (run : AnalysisRun) where
  -- Of a measurement, by the time at which it has finished.
  abbrev pub Finishes : Metric → Measurement → Option Time → Time → Type 0
  Finishes metric last none t = last.resume_at ≡ some t
  Finishes metric last (some finished) t =
      (interval : Duration) × (is_short lib metric (get_result run metric.name) ≡ true)
      × ((if is_error last.phase
            then some (pos 10_000_000_000)
            else if str_eq metric.interval ""
            then none
            else lib.parse_duration metric.interval)
          ≡ some interval)
      × (t ≡ finished +ℤ interval)

  -- The time that a metric with this last measurement waits for: the end of the initial delay, from
  -- the start of the run or from now on; the time to resume a measurement in flight; or the end of
  -- the interval after the measurement, of ten seconds after an error, where the measurements are
  -- not enough.
  abbrev pub WaitsFor : Metric → Option Measurement → Time → Type 0
  WaitsFor metric none t =
      (delay : Duration) × (str_eq metric.initial_delay "" ≡ false)
      × (lib.parse_duration metric.initial_delay ≡ some delay)
      × (t ≡ elim run.status.started_at [ none ↦ now +ℤ delay | some start ↦ start +ℤ delay ])
  WaitsFor metric (some last) t = Finishes metric last last.finished_at t

  abbrev pub IsDueAt : Metric → Time → Type 0
  IsDueAt metric t =
      (metric_completed run metric.name ≡ false)
      × WaitsFor metric (last_measurement run metric.name) t

  plus-some :
      (start t : Time) (d : Option Duration)
      → plus start d ≡ some t
      → (i : Duration) × (d ≡ some i) × (t ≡ start +ℤ i)
  unfolding plus
  plus-some start t none h = absurd (none-ne-some t h)
  plus-some start t (some i) h = (i, refl, sym (some-injective (start +ℤ i) t h))

  reached_of-short :
      (m : Metric) (r : Option MetricResult)
      → reached_of lib m r ≡ (if is_short lib m r then false else true)
  unfolding reached_of
  reached_of-short m none = refl
  reached_of-short m (some r) = elim (Bool-cases (is_enough lib m r.count)) [
    | inl y ↦ count_reached-eq lib m r ∙ rw y refl
    | inr n ↦ count_reached-eq lib m r ∙ rw n refl
  ]

  started-plus :
      (started : Option Time) (i : Duration)
      → (start_or now started +ℤ i) ≡ elim started [ none ↦ now +ℤ i | some start ↦ start +ℤ i ]
  unfolding start_or
  started-plus none i = refl
  started-plus (some start) i = refl

  waits :
      (m : Metric) (last : Measurement) (finished : Option Time) (t : Time)
      → after_finish lib now run m last finished ≡ some t
      → Finishes m last finished t
  unfolding after_finish due_interval
  waits m last none t h = h
  waits m last (some finished) t h = elim (Bool-cases (is_short lib m (get_result run m.name))) [
    | inr n ↦ absurd (none-ne-some t (rw (reached_of-short m (get_result run m.name), n) at h))
    | inl y ↦
        let (i, e, k) =
          plus-some finished t (due_interval lib now run m last)
            (rw (reached_of-short m (get_result run m.name), y) at h) in
        (i, y, e, k)
  ]

  due_after-WaitsFor :
      (m : Metric) (last : Option Measurement) (t : Time)
      → due_after lib now run m last ≡ some t
      → WaitsFor m last t
  unfolding due_after
  due_after-WaitsFor m none t h = elim (Bool-cases (str_eq m.initial_delay "")) [
    | inl y ↦ absurd (none-ne-some t (rw y at h))
    | inr n ↦
        let (i, e, k) =
          plus-some (start_or now run.status.started_at) t (lib.parse_duration m.initial_delay)
            (rw n at h) in
        (i, n, e, k ∙ started-plus run.status.started_at i)
  ]
  due_after-WaitsFor m (some last) t h = waits m last last.finished_at t h

  pub due_time-IsDueAt : (m : Metric) (t : Time) → due_time lib now run m ≡ some t → IsDueAt m t
  unfolding due_time
  due_time-IsDueAt m t h = elim (Bool-cases (metric_completed run m.name)) [
    | inl y ↦ absurd (none-ne-some t (rw y at h))
    | inr n ↦ (n, due_after-WaitsFor m (last_measurement run m.name) t (rw n at h))
  ]

  after_finish-some :
      (m : Metric) (last : Measurement) (finished : Option Time) (t : Time)
      → Finishes m last finished t
      → after_finish lib now run m last finished ≡ some t
  unfolding after_finish plus due_interval
  after_finish-some m last none t h = h
  after_finish-some m last (some finished) t (i, short, e, k) =
      rw (reached_of-short m (get_result run m.name), short, e, k) refl

  due_after-some :
      (m : Metric) (last : Option Measurement) (t : Time)
      → WaitsFor m last t
      → due_after lib now run m last ≡ some t
  unfolding due_after plus
  due_after-some m none t (i, n, e, k) = rw (n, e, k, started-plus run.status.started_at i) refl
  due_after-some m (some last) t h = after_finish-some m last last.finished_at t h

  pub due_time-some : (m : Metric) (t : Time) → IsDueAt m t → due_time lib now run m ≡ some t
  unfolding due_time
  due_time-some m t (n, h) = rw n (due_after-some m (last_measurement run m.name) t h)
