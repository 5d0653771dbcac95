-- ===== src/Pause/Laws.antt =====
-- What the computed status says about aborts and pauses.
use intuit_argo_rollouts_dem.Prelude.{
  ◌≡◌, ◌≢◌, refl, true, false, not, ◌&&◌, Option, none, some, List, [], ◌∷◌, ◌++◌, arith,
  if◌then◌else◌,
}
use intuit_argo_rollouts_dem.Common.{Time}
use intuit_argo_rollouts_dem.Rollout.{RolloutStatus, PauseReason, PauseCondition}
use intuit_argo_rollouts_dem.Pause.{
  PauseContext, is_aborted, find_condition, same, is_listed, has_reason, kept, added, pause_status,
  calculate_pause_status,
}

-- The status is aborted exactly if the context is, unless one reconciliation both adds and removes
-- the abort; the time of the first abort is kept, and a status that is not aborted has none.
pub calculate_pause_status-abort :
    (now : Time) (p : PauseContext) (status : RolloutStatus)
    → p.should_abort && p.should_unabort ≡ false
    → let s = calculate_pause_status now p status in
      (s.abort ≡ is_aborted p)
      × (is_aborted p ≡ true
          → s.aborted_at ≡ some (elim p.rollout.status.aborted_at [ none ↦ now | some t ↦ t ]))
      × (is_aborted p ≡ false → s.aborted_at ≡ none)
unfolding calculate_pause_status is_aborted pause_status
calculate_pause_status-abort now p status h = (ground arith, λ a. ground arith, λ a. ground arith)

same-eq : (p q : PauseReason) → same p q ≡ true → p ≡ q
same-eq p q h = ground arith

-- What the status before says of a reason.
pub find_condition-none :
    (q : PauseReason) (cs : List PauseCondition)
    → has_reason q cs ≡ false
    → find_condition q cs ≡ none
unfolding find_condition
find_condition-none q [] h = refl
find_condition-none q (c ∷ cs) h = ground (arith, find_condition-none q cs)

find_condition-kept :
    (q : PauseReason) (removed : List PauseReason) (old : List PauseCondition)
    → find_condition q (kept removed old)
      ≡ (if is_listed q removed then none else find_condition q old)
unfolding kept find_condition
find_condition-kept q removed [] = ground arith
find_condition-kept q removed (c ∷ cs) =
    ground (arith, same-eq c.reason q, find_condition-kept q removed cs)

find_condition-added :
    (q : PauseReason) (now : Time) (old : List PauseCondition) (rs : List PauseReason)
    → find_condition q (added now old rs) ≡ (
        if is_listed q rs && not (has_reason q old)
        then some (record { reason = q; start_time = now })
        else none)
unfolding added find_condition
find_condition-added q now old [] = refl
find_condition-added q now old (r ∷ rs) =
    ground (arith, same-eq r q, find_condition-added q now old rs)

abbrev first_of_two : Option PauseCondition → Option PauseCondition → Option PauseCondition
first_of_two none y = y
first_of_two (some x) y = some x

find_condition-append :
    (q : PauseReason) (xs ys : List PauseCondition)
    → find_condition q (xs ++ ys) ≡ first_of_two (find_condition q xs) (find_condition q ys)
unfolding find_condition
find_condition-append q [] ys = refl
find_condition-append q (x ∷ xs) ys = ground (arith, find_condition-append q xs ys)

find_condition-has_reason :
    (q : PauseReason) (cs : List PauseCondition)
    → has_reason q cs ≡ true
    → find_condition q cs ≢ none
unfolding find_condition
find_condition-has_reason q [] h = cc
find_condition-has_reason q (c ∷ cs) h = ground (arith, find_condition-has_reason q cs)

pause_status-conditions :
    (now : Time) (p : PauseContext) (status : RolloutStatus)
    → status.pause_conditions ≡ []
    → (pause_status now p status).pause_conditions
      ≡ kept p.remove_pause_reasons p.rollout.status.pause_conditions
        ++ added now p.rollout.status.pause_conditions p.add_pause_reasons
unfolding pause_status
pause_status-conditions now p status h = ground arith

-- In a reconciliation that neither aborts nor clears, onto a status with no pause yet: a reason that
-- the rollout is paused for stays, with its start time, unless it is removed; a reason that it is not
-- paused for begins now, if it is added; and there is no other reason.
pub calculate_pause_status-reason :
    (now : Time) (p : PauseContext) (status : RolloutStatus) (q : PauseReason)
    → p.should_abort ≡ false
    → is_aborted p ≡ false
    → p.should_clear ≡ false
    → status.pause_conditions ≡ []
    → let old = p.rollout.status.pause_conditions in
      find_condition q (calculate_pause_status now p status).pause_conditions ≡ (
        if has_reason q old
        then (if is_listed q p.remove_pause_reasons then none else find_condition q old)
        else if is_listed q p.add_pause_reasons
        then some (record { reason = q; start_time = now })
        else none)
unfolding calculate_pause_status is_aborted
calculate_pause_status-reason now p status q a b c e =
    let old = p.rollout.status.pause_conditions in
    let going = record status { abort = false; aborted_at = none } in
    ground (
      arith,
      pause_status-conditions now p going e,
      find_condition-append q (kept p.remove_pause_reasons old) (added now old p.add_pause_reasons),
      find_condition-kept q p.remove_pause_reasons old,
      find_condition-added q now old p.add_pause_reasons,
      find_condition-none q old,
      find_condition-has_reason q old,
    )
