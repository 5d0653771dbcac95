-- ===== src/Analysis/Collect/Retention.antt =====
-- What garbage collection leaves of the measurements.
use intuit_argo_rollouts_dem.Prelude.{
  ℕ, suc, zero, ◌-◌, ◌≡◌, ◌≢◌, ◌≤◌, ◌<◌, refl, Option, none, String, List, [], ◌∷◌, ◌++◌, ℤ, ◌⊎◌,
  inl, inr, length, drop, last?, length-drop, ltb, arith, All, Bool-cases, Option-cases,
}
use intuit_argo_rollouts_dem.Analysis.Types.{Measurement, MetricResult, Metric, AnalysisRun}
use intuit_argo_rollouts_dem.Analysis.Collect.{
  GcAnswer, collected, no_provider, gc_failed, metric_named, measurements_limit, trim, by_answer,
  by_metric, collect_from, garbage_collect_measurements,
}

last?-drop : (n : ℕ) (xs : List Measurement) → n < length xs → last? (drop n xs) ≡ last? xs
last?-drop zero xs h = refl
last?-drop (suc n) [] h = elim h [ ]
last?-drop (suc n) (x ∷ []) h = absurd (omega arith)
last?-drop (suc n) (x ∷ y ∷ xs) h = last?-drop n (y ∷ xs) (omega arith)

-- `s` is `r` with some of its oldest measurements gone, and the last one kept.
abbrev pub IsTrimmed : MetricResult → MetricResult → Type 0
IsTrimmed r s =
    (k : ℕ) × (s ≡ record r { measurements = drop k r.measurements })
    × (last? s.measurements ≡ last? r.measurements)

abbrev pub AllTrimmed : List MetricResult → List MetricResult → Type 0
AllTrimmed [] [] = Unit
AllTrimmed (r ∷ rs) (s ∷ ss) = IsTrimmed r s × AllTrimmed rs ss
AllTrimmed _ _ = ⊥

append-ne-nil : (es : List String) (e : String) → (es ++ e ∷ []) ≢ []
append-ne-nil [] e = λ q. cc
append-ne-nil (x ∷ es) e = λ q. cc

AllTrimmed-refl : (rs : List MetricResult) → AllTrimmed rs rs
AllTrimmed-refl [] = tt
AllTrimmed-refl (r ∷ rs) = ((0, refl, refl), AllTrimmed-refl rs)

module _ (gc : Metric → ℕ → GcAnswer) (retention : String → Option ℤ) (metrics : List Metric)
    (limit : ℕ) where
  -- The measurements are within the limit, or no metric of the spec has the name.
  abbrev pub IsWithin : MetricResult → Type 0
  IsWithin s =
      (length s.measurements ≤ measurements_limit gc retention metrics limit s.name)
      ⊎ (metric_named s.name metrics ≡ none)

  abbrev collect : List MetricResult → List String → List MetricResult × Option String
  collect = collect_from gc retention metrics limit

  measurements_limit-pos :
      (name : String) → 0 < limit → 0 < measurements_limit gc retention metrics limit name
  unfolding measurements_limit
  measurements_limit-pos name h = ground arith

  trim-IsTrimmed :
      (r : MetricResult)
      → 0 < limit
      → measurements_limit gc retention metrics limit r.name < length r.measurements
      → IsTrimmed r (trim gc retention metrics limit r)
  unfolding trim
  trim-IsTrimmed r h over = (
    length r.measurements - measurements_limit gc retention metrics limit r.name,
    refl,
    last?-drop _ r.measurements (omega (arith, measurements_limit-pos r.name h)),
  )

  trim-IsWithin : (r : MetricResult) → IsWithin (trim gc retention metrics limit r)
  unfolding trim
  trim-IsWithin r = inl (
      rw
        (length-drop (length r.measurements - measurements_limit gc retention metrics limit r.name)
          r.measurements)
        (omega arith))

  -- One round of the loop, on every answer: the results of the rest are trimmed if `go` trims them.
  by_answer-AllTrimmed :
      (r : MetricResult) (rs : List MetricResult) (errors : List String) (answer : GcAnswer)
      → IsTrimmed r (trim gc retention metrics limit r)
      → ((es : List String) → AllTrimmed rs (collect rs es).0)
      → AllTrimmed (r ∷ rs) (by_answer gc retention metrics limit r rs errors (collect rs) answer).0
  unfolding by_answer
  by_answer-AllTrimmed r rs errors collected t h = (t, h errors)
  by_answer-AllTrimmed r rs errors (no_provider e) t h = ((0, refl, refl), h (errors ++ e ∷ []))
  by_answer-AllTrimmed r rs errors (gc_failed e) t h = ((0, refl, refl), AllTrimmed-refl rs)

  collect_from-AllTrimmed :
      (rs : List MetricResult) (errors : List String)
      → 0 < limit
      → AllTrimmed rs (collect rs errors).0
  unfolding collect_from
  collect_from-AllTrimmed [] errors h = tt
  collect_from-AllTrimmed (r ∷ rs) errors h =
      let unchanged : IsTrimmed r r = (0, refl, refl) in
      elim (Bool-cases
        (ltb (measurements_limit gc retention metrics limit r.name) (length r.measurements))) [
          | inr within ↦ rw within (unchanged, collect_from-AllTrimmed rs errors h)
          | inl over ↦ elim (Option-cases (metric_named r.name metrics)) [
            | inl e ↦ rw (over, e, by_metric) (unchanged, collect_from-AllTrimmed rs errors h)
            | inr (m, e) ↦
                rw (over, e, by_metric)
                  (by_answer-AllTrimmed r rs errors
                    (gc m (measurements_limit gc retention metrics limit r.name))
                    (trim-IsTrimmed r h (ground arith)) (λ es. collect_from-AllTrimmed rs es h))
          ]
        ]

  by_answer-error :
      (r : MetricResult) (rs : List MetricResult) (errors : List String) (answer : GcAnswer)
      → ((es : List String) → es ≢ [] → (collect rs es).1 ≢ none)
      → errors ≢ []
      → (by_answer gc retention metrics limit r rs errors (collect rs) answer).1 ≢ none
  unfolding by_answer
  by_answer-error r rs errors collected ih h = ih errors h
  by_answer-error r rs errors (no_provider e) ih h = ih (errors ++ e ∷ []) (append-ne-nil errors e)
  by_answer-error r rs errors (gc_failed e) ih h = λ q. cc

  -- An error that was met before is not forgotten.
  collect_from-error :
      (rs : List MetricResult) (errors : List String) → errors ≢ [] → (collect rs errors).1 ≢ none
  unfolding collect_from
  collect_from-error [] [] h = absurd (h refl)
  collect_from-error [] (e ∷ es) h = λ q. cc
  collect_from-error (r ∷ rs) errors h =
      let limit_of = measurements_limit gc retention metrics limit r.name in
      elim (Bool-cases (ltb limit_of (length r.measurements))) [
        | inr within ↦ rw within (collect_from-error rs errors h)
        | inl over ↦ elim (Option-cases (metric_named r.name metrics)) [
          | inl e ↦ rw (over, e, by_metric) (collect_from-error rs errors h)
          | inr (m, e) ↦
              rw (over, e, by_metric)
                (by_answer-error r rs errors (gc m limit_of) (λ es. collect_from-error rs es) h)
        ]
      ]

  by_answer-IsWithin :
      (r : MetricResult) (rs : List MetricResult) (errors : List String) (answer : GcAnswer)
      → ((es : List String) → (collect rs es).1 ≡ none → All IsWithin (collect rs es).0)
      → (by_answer gc retention metrics limit r rs errors (collect rs) answer).1 ≡ none
      → All IsWithin (by_answer gc retention metrics limit r rs errors (collect rs) answer).0
  unfolding by_answer
  by_answer-IsWithin r rs errors collected ih h = (trim-IsWithin r, ih errors h)
  by_answer-IsWithin r rs errors (no_provider e) ih h =
      absurd (collect_from-error rs (errors ++ e ∷ []) (append-ne-nil errors e) h)
  by_answer-IsWithin r rs errors (gc_failed e) ih h = cc

  -- Without an error, every result is within its limit or names no metric.
  collect_from-IsWithin :
      (rs : List MetricResult) (errors : List String)
      → (collect rs errors).1 ≡ none
      → All IsWithin (collect rs errors).0
  unfolding collect_from
  collect_from-IsWithin [] errors = λ h. tt
  collect_from-IsWithin (r ∷ rs) errors =
      let limit_of = measurements_limit gc retention metrics limit r.name in
      elim (Bool-cases (ltb limit_of (length r.measurements))) [
        | inr within ↦ rw within (λ h. (inl (ground arith), collect_from-IsWithin rs errors h))
        | inl over ↦ elim (Option-cases (metric_named r.name metrics)) [
          | inl e ↦ rw (over, e, by_metric) (λ h. (inr e, collect_from-IsWithin rs errors h))
          | inr (m, e) ↦
              rw (over, e, by_metric)
                (by_answer-IsWithin r rs errors (gc m limit_of) (collect_from-IsWithin rs))
        ]
      ]

  -- Garbage collection, whatever the providers answer, changes a result only by dropping some of its
  -- oldest measurements, and never its last one, for a positive limit.
  pub garbage_collect_measurements-AllTrimmed :
      (run : AnalysisRun)
      → 0 < limit
      → AllTrimmed run.status.metric_results
          (garbage_collect_measurements gc retention metrics limit run).0.status.metric_results
  unfolding garbage_collect_measurements
  garbage_collect_measurements-AllTrimmed run h =
      collect_from-AllTrimmed run.status.metric_results [] h

  -- If garbage collection returns no error, then no result of a metric of the spec is left with more
  -- measurements than the limit of that metric.
  pub garbage_collect_measurements-IsWithin :
      (run : AnalysisRun)
      → (garbage_collect_measurements gc retention metrics limit run).1 ≡ none
      → All IsWithin
          (garbage_collect_measurements gc retention metrics limit run).0.status.metric_results
  unfolding garbage_collect_measurements
  garbage_collect_measurements-IsWithin run h = collect_from-IsWithin run.status.metric_results [] h
