-- ===== src/Analysis/Assess/Decision.antt =====
-- What decides the phase of a metric.
use intuit_argo_rollouts_dem.Prelude.{
  ◌≡◌, refl, Bool, true, false, Option, none, some, ℤ, pos, ◌⊎◌, inl, inr, last?, arith, ltb_ℤ,
  int32, ◌||◌, Bool-cases,
}
use intuit_argo_rollouts_dem.Analysis.Types.{
  AnalysisPhase, unset, pending, running, successful, failed, error, inconclusive, completed,
  IntOrString, Library, Measurement, MetricResult, Metric,
}
use intuit_argo_rollouts_dem.Analysis.Assess.Limits.{assess_limits, consecutive_error_limit}
use intuit_argo_rollouts_dem.Analysis.Assess.Counts.{is_enough}
use intuit_argo_rollouts_dem.Analysis.Assess.Verdict.{
  assess_metric_status, after_limits, after_last,
}

-- The counter is over the limit, or over the default where there is none.
abbrev pub is_over : Library → (default : ℤ) → Option IntOrString → ℤ → Bool
is_over lib default none n = ltb_ℤ default n
is_over lib default (some limit) n = ltb_ℤ (int32 (lib.int_value limit)) n

module _ (lib : Library) (metric : Metric) (r : MetricResult) where
  abbrev pub over_errors : Bool
  over_errors = is_over lib (pos 4) metric.consecutive_error_limit r.consecutive_error

  abbrev pub over_inconclusives : Bool
  over_inconclusives = is_over lib (pos 0) metric.inconclusive_limit r.inconclusive

  abbrev pub over_failures : Bool
  over_failures = is_over lib (pos 0) metric.failure_limit r.failed

  abbrev pub IsWithinLimits : Type 0
  IsWithinLimits = (over_errors ≡ false) × (over_inconclusives ≡ false) × (over_failures ≡ false)

  -- The last measurement is there, and has completed or not.
  abbrev pub IsMeasured : Bool → Type 0
  IsMeasured b =
      (last : Measurement) × (last? r.measurements ≡ some last) × (completed last.phase ≡ b)

  -- When a result in progress has each of the phases.
  abbrev pub HasVerdict : (terminating : Bool) → AnalysisPhase → Type 0
  HasVerdict terminating error = IsMeasured true × (over_errors ≡ true)
  HasVerdict terminating inconclusive =
      IsMeasured true × (over_errors ≡ false) × (over_inconclusives ≡ true)
  HasVerdict terminating failed =
      IsMeasured true
      × (over_errors ≡ false)
      × (over_inconclusives ≡ false)
      × (over_failures ≡ true)
  HasVerdict terminating successful =
      ((last? r.measurements ≡ none) × (terminating ≡ true))
      ⊎ (IsMeasured true × IsWithinLimits × (is_enough lib metric r.count || terminating ≡ true))
  HasVerdict terminating running =
      IsMeasured false
      ⊎ (IsMeasured true
          × IsWithinLimits
          × (is_enough lib metric r.count ≡ false)
          × (terminating ≡ false))
  HasVerdict terminating pending = (last? r.measurements ≡ none) × (terminating ≡ false)
  HasVerdict terminating unset = ⊥

  -- The phase by the three limits, of which the errors come first.
  abbrev by_limits : (errors inconclusives failures : Bool) → AnalysisPhase
  by_limits true _ _ = error
  by_limits false true _ = inconclusive
  by_limits false false true = failed
  by_limits false false false = unset

  terminated :
      (last : Option Measurement)
      → last? r.measurements ≡ last
      → (completed (after_last lib metric r true last) ≡ true)
        ⊎ (IsMeasured false × (after_last lib metric r true last ≡ running))
  unfolding after_last after_limits assess_limits completed
  terminated none h = inl refl
  terminated (some last) h = elim (Bool-cases (completed last.phase)) [
    | inr flying ↦ inr ((last, h, flying), rw flying refl)
    | inl done ↦ inl (ground (arith, done))
  ]

  -- Under a termination no metric is left pending, and one is not completed only while its last
  -- measurement is in flight, and then it is Running.
  pub assess_metric_status-terminates :
      (completed (assess_metric_status lib metric r true) ≡ true)
      ⊎ (IsMeasured false × (assess_metric_status lib metric r true ≡ running))
  unfolding assess_metric_status completed
  assess_metric_status-terminates = elim (Bool-cases (completed r.phase)) [
    | inl y ↦ inl (rw y y)
    | inr n ↦ rw n (terminated (last? r.measurements) refl)
  ]
