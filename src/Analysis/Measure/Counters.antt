-- ===== src/Analysis/Measure/Counters.antt =====
-- The counters and the list of measurements after one more measurement.
use intuit_argo_rollouts_dem.Prelude.{
  ◌+◌, ◌≡◌, ◌≢◌, refl, true, Option, none, some, List, [], ◌∷◌, ◌++◌, String, ℤ, pos, ◌+ℤ◌, ◌≤ℤ◌,
  int32, int32-eq, int_laws, is_some, last?, set_last, length, length-append, length-set_last,
  if◌then◌else◌, arith, ◌⊎◌, inl, inr, pos_part, neg_part, parts_disjoint,
}
use intuit_argo_rollouts_dem.Analysis.Types.{
  AnalysisPhase, successful, failed, inconclusive, error, completed, Time, Measurement,
  MetricResult,
}
use intuit_argo_rollouts_dem.Analysis.Measure.{count_outcome, stamp, store, record_measurement}

-- `count` is the number of measurements without an error, and no counter is negative.
pub record IsCounted (r : MetricResult) : Type 0 where
  pub total : r.count ≡ r.successful +ℤ r.failed +ℤ r.inconclusive
  pub successful_nonneg : pos 0 ≤ℤ r.successful
  pub failed_nonneg : pos 0 ≤ℤ r.failed
  pub inconclusive_nonneg : pos 0 ≤ℤ r.inconclusive
  pub error_nonneg : pos 0 ≤ℤ r.consecutive_error
  pub consecutive : r.consecutive_error ≤ℤ r.error

-- One more can be counted without overflow.
pub record HasRoom (r : MetricResult) : Type 0 where
  pub room : r.count ≤ℤ pos 2147483646
  pub error_room : r.error ≤ℤ pos 2147483646

-- An incremented counter, in its parts.
increment_parts :
    (n : ℤ)
    → pos 0 ≤ℤ n
    → n ≤ℤ pos 2147483646
    → pos_part (int32 (n +ℤ pos 1)) + neg_part n ≡ neg_part (int32 (n +ℤ pos 1)) + pos_part n + 1
increment_parts n h k =
    let low = parts_disjoint n in
    let high = parts_disjoint (n +ℤ pos 1) in
    rw (int32-eq (n +ℤ pos 1) (omega int_laws, omega int_laws)) (omega int_laws)

module _ (r : MetricResult) (c : IsCounted r) (h : HasRoom r) where
  count_parts :
      pos_part r.count + neg_part r.successful + neg_part r.failed + neg_part r.inconclusive
      ≡ neg_part r.count + pos_part r.successful + pos_part r.failed + pos_part r.inconclusive
  count_parts = rw c.total (omega int_laws)

  count_up :
      pos_part (int32 (r.count +ℤ pos 1)) + neg_part r.count
      ≡ neg_part (int32 (r.count +ℤ pos 1)) + pos_part r.count + 1
  count_up = increment_parts r.count (omega (arith, count_parts)) h.room

  -- A counter that is part of the count has room too.
  part_up :
      (n : ℤ)
      → pos 0 ≤ℤ n
      → n ≤ℤ r.count
      → pos_part (int32 (n +ℤ pos 1)) + neg_part n ≡ neg_part (int32 (n +ℤ pos 1)) + pos_part n + 1
  part_up n low high = increment_parts n low (omega arith)

count_outcome-IsCounted :
    (p : AnalysisPhase) (r : MetricResult) → IsCounted r → HasRoom r → IsCounted (count_outcome p r)
unfolding count_outcome
count_outcome-IsCounted successful r c h =
    let sum = count_parts r c h in
    let total = count_up r c h in
    let part = part_up r c h r.successful c.successful_nonneg (omega arith) in
    record {
      total = omega int_laws;
      successful_nonneg = omega arith;
      failed_nonneg = omega arith;
      inconclusive_nonneg = omega arith;
      error_nonneg = omega arith;
      consecutive = omega arith;
    }
count_outcome-IsCounted failed r c h =
    let sum = count_parts r c h in
    let total = count_up r c h in
    let part = part_up r c h r.failed c.failed_nonneg (omega arith) in
    record {
      total = omega int_laws;
      successful_nonneg = omega arith;
      failed_nonneg = omega arith;
      inconclusive_nonneg = omega arith;
      error_nonneg = omega arith;
      consecutive = omega arith;
    }
count_outcome-IsCounted inconclusive r c h =
    let sum = count_parts r c h in
    let total = count_up r c h in
    let part = part_up r c h r.inconclusive c.inconclusive_nonneg (omega arith) in
    record {
      total = omega int_laws;
      successful_nonneg = omega arith;
      failed_nonneg = omega arith;
      inconclusive_nonneg = omega arith;
      error_nonneg = omega arith;
      consecutive = omega arith;
    }
count_outcome-IsCounted error r c h =
    let run = increment_parts r.consecutive_error c.error_nonneg (omega arith) in
    let all = increment_parts r.error (omega arith) h.error_room in
    record {
      total = c.total;
      successful_nonneg = c.successful_nonneg;
      failed_nonneg = c.failed_nonneg;
      inconclusive_nonneg = c.inconclusive_nonneg;
      error_nonneg = omega arith;
      consecutive = omega arith;
    }
count_outcome-IsCounted _ r c h = c

store-IsCounted :
    (old : Option Measurement) (m : Measurement) (r : MetricResult)
    → IsCounted r
    → IsCounted (store old m r)
unfolding store
store-IsCounted none m r c = record {
  total = c.total;
  successful_nonneg = c.successful_nonneg;
  failed_nonneg = c.failed_nonneg;
  inconclusive_nonneg = c.inconclusive_nonneg;
  error_nonneg = c.error_nonneg;
  consecutive = c.consecutive;
}
store-IsCounted (some x) m r c = record {
  total = c.total;
  successful_nonneg = c.successful_nonneg;
  failed_nonneg = c.failed_nonneg;
  inconclusive_nonneg = c.inconclusive_nonneg;
  error_nonneg = c.error_nonneg;
  consecutive = c.consecutive;
}

-- Recording a measurement keeps `count` the sum of the successful, failed and inconclusive
-- measurements, and the consecutive errors at most the errors, below the int32 limit.
pub record_measurement-IsCounted :
    (redact : String → String) (now : Time) (old : Option Measurement) (m : Measurement)
    (r : MetricResult)
    → IsCounted r
    → HasRoom r
    → IsCounted (record_measurement redact now old m r)
unfolding record_measurement
record_measurement-IsCounted redact now old m r c h =
    store-IsCounted old _ _ (count_outcome-IsCounted m.phase r c h)

last?-append : (xs : List Measurement) (m : Measurement) → last? (xs ++ m ∷ []) ≡ some m
last?-append [] m = refl
last?-append (x ∷ []) m = refl
last?-append (x ∷ y ∷ xs) m = last?-append (y ∷ xs) m

last?-set_last :
    (xs : List Measurement) (m : Measurement) → xs ≢ [] → last? (set_last xs m) ≡ some m
last?-set_last [] m h = absurd (h refl)
last?-set_last (x ∷ []) m h = refl
last?-set_last (x ∷ y ∷ []) m h = refl
last?-set_last (x ∷ y ∷ z ∷ xs) m h = last?-set_last (y ∷ z ∷ xs) m (λ e. cc)

count_outcome-measurements :
    (p : AnalysisPhase) (r : MetricResult) → (count_outcome p r).measurements ≡ r.measurements
unfolding count_outcome
count_outcome-measurements successful r = refl
count_outcome-measurements _ r = refl

-- A measurement in progress is replaced and a new one is appended: the list grows by one exactly for
-- a new one, and its last element has the phase just measured, and a finishing time if that is a
-- completed phase.
pub record_measurement-last :
    (redact : String → String) (now : Time) (old : Option Measurement) (m : Measurement)
    (r : MetricResult)
    → (old ≡ none) ⊎ (r.measurements ≢ [])
    → let s = record_measurement redact now old m r in
      (length s.measurements
        ≡ (if is_some old then length r.measurements else length r.measurements + 1))
      × ((l : Measurement) × (last? s.measurements ≡ some l)
          × (l.phase ≡ m.phase)
          × (completed m.phase ≡ true → is_some l.finished_at ≡ true))
unfolding record_measurement store stamp
record_measurement-last redact now none m r h = (
  rw (count_outcome-measurements m.phase r) (rw length-append (omega arith)),
  (
    record (stamp now m) { message = redact m.message },
    rw (count_outcome-measurements m.phase r) (last?-append r.measurements _),
    ground arith,
    λ d. ground arith,
  ),
)
record_measurement-last redact now (some x) m r h = (
  rw (count_outcome-measurements m.phase r) (length-set_last r.measurements _),
  (
    record (stamp now m) { message = redact m.message },
    rw (count_outcome-measurements m.phase r)
        (last?-set_last r.measurements _ (elim h [ inl e ↦ absurd (cc) | inr ne ↦ ne ])),
    ground arith,
    λ d. ground arith,
  ),
)
