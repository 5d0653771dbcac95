-- ===== src/Sync/Conditions/Aborts.antt =====
-- When the progress deadline aborts a rollout.
use intuit_argo_rollouts_dem.Prelude.{
  ◌≡◌, refl, ◌⊎◌, inl, inr, Bool, true, false, not, ◌&&◌, Option, none, some, ℤ, pos, ◌+ℤ◌, ◌*ℤ◌,
  ltb_ℤ, String, is_some, str_eq, eq_iff, arith, Bool-cases,
}
use mathlib.Core.Bool.{false≢true}
use intuit_argo_rollouts_dem.Common.{Time, Library}
use intuit_argo_rollouts_dem.Rollout.{Rollout, RolloutStatus, RolloutCondition, ConditionStatus}
use intuit_argo_rollouts_dem.Rollout.ConditionTypes
use intuit_argo_rollouts_dem.Rollout.Defaults.{get_progress_deadline_seconds_or_default}
use intuit_argo_rollouts_dem.Pause.{is_aborted, add_abort}
use intuit_argo_rollouts_dem.Status.Conditions.{
  get_rollout_condition, set_rollout_condition, new_rollout_condition,
}
use intuit_argo_rollouts_dem.Status.Conditions.Laws.{set_rollout_condition-get}
use intuit_argo_rollouts_dem.Status.Progress.{rollout_timed_out, timed_out_by, rollout_healthy}
use intuit_argo_rollouts_dem.Context.{RolloutContext, the_rollout}
use intuit_argo_rollouts_dem.Sync.Conditions.{
  healthy_condition, aborted_condition, timed_out, progress, progressing_condition, is_paused,
  calculate_rollout_conditions, is_indefinite_step, is_waiting_for_replica_set_scale_down,
}

-- The progress deadline of a rollout in nanoseconds: of ten minutes where the spec has none.
abbrev pub deadline_of : Option ℤ → ℤ
deadline_of none = pos 600 *ℤ pos 1_000_000_000
deadline_of (some seconds) = seconds *ℤ pos 1_000_000_000

-- The progressing condition has passed its deadline: it is not that of an abort, and it says so
-- already or was last updated longer ago than the deadline.
abbrev pub HasPassed : Time → Rollout → Option RolloutCondition → Type 0
HasPassed now ro none = ⊥
HasPassed now ro (some c) =
    (str_eq c.reason "RolloutAborted" ≡ false)
    × ((str_eq c.reason "ProgressDeadlineExceeded" ≡ true)
        ⊎ (ltb_ℤ (c.last_update_time +ℤ deadline_of ro.spec.progress_deadline_seconds) now ≡ true))

-- A context that is aborted was aborted before, or the deadline aborts it.
abbrev pub IsAbortedBy : Time → RolloutContext → RolloutStatus → RolloutContext → Type 0
IsAbortedBy now c status d =
    is_aborted d.pause ≡ true
    → (is_aborted c.pause ≡ true)
      ⊎ (((the_rollout c).spec.progress_deadline_abort ≡ true)
          × (is_indefinite_step (the_rollout c) ≡ false)
          × (is_waiting_for_replica_set_scale_down c ≡ false)
          × HasPassed now (the_rollout c) (get_rollout_condition status ConditionTypes.progressing))

module _ (now : Time) (lib : Library) where
  deadline-eq :
      (ro : Rollout)
      → get_progress_deadline_seconds_or_default ro *ℤ pos 1_000_000_000
        ≡ deadline_of ro.spec.progress_deadline_seconds
  unfolding get_progress_deadline_seconds_or_default
  deadline-eq ro = ground arith

  timed_out_by-HasPassed :
      (ro : Rollout) (o : Option RolloutCondition)
      → timed_out_by now (get_progress_deadline_seconds_or_default ro) o ≡ true
      → HasPassed now ro o
  unfolding timed_out_by
  timed_out_by-HasPassed ro none h = absurd (ground (arith, h))
  timed_out_by-HasPassed ro (some c) h = elim (Bool-cases (str_eq c.reason "RolloutAborted")) [
    | inl y ↦ absurd (ground (arith, rw y at h))
    | inr n ↦ elim (Bool-cases (str_eq c.reason "ProgressDeadlineExceeded")) [
      | inl z ↦ (n, inl z)
      | inr z ↦ (n, inr (rw (n, z, deadline-eq ro) at h))
    ]
  ]

  timed_out-abort :
      (c : RolloutContext) (status : RolloutStatus)
      → is_aborted (timed_out now c status).0.pause ≡ true
      → (is_aborted c.pause ≡ true) ⊎ ((the_rollout c).spec.progress_deadline_abort ≡ true)
  unfolding timed_out is_aborted add_abort
  timed_out-abort c status h = ground (arith, h)

  -- Without the deadline.
  abbrev IsAsked : RolloutContext → Type 0
  IsAsked c =
      ((the_rollout c).spec.progress_deadline_abort ≡ true)
      × (is_indefinite_step (the_rollout c) ≡ false)
      × (is_waiting_for_replica_set_scale_down c ≡ false)

  progress-IsAsked :
      (c : RolloutContext) (status : RolloutStatus) (b : Bool)
      → is_aborted (progress now c status b).0.pause ≡ true
      → (is_aborted c.pause ≡ true)
        ⊎ (IsAsked c × (rollout_timed_out now (the_rollout c) status ≡ true))
  unfolding progress
  progress-IsAsked c status b h = ground (arith, h, timed_out-abort c status)

  progress-IsAbortedBy :
      (c : RolloutContext) (status : RolloutStatus) (b : Bool)
      → IsAbortedBy now c status (progress now c status b).0
  unfolding rollout_timed_out
  progress-IsAbortedBy c status b h = elim (progress-IsAsked c status b h) [
    | inl before ↦ inl before
    | inr ((asked, step, waiting), late) ↦ inr (
      asked,
      step,
      waiting,
      timed_out_by-HasPassed (the_rollout c)
          (get_rollout_condition status ConditionTypes.progressing) late,
    )
  ]

  progressing_condition-IsAbortedBy :
      (c : RolloutContext) (status : RolloutStatus) (b : Bool)
      → IsAbortedBy now c status (progressing_condition now c status b).0
  unfolding progressing_condition
  progressing_condition-IsAbortedBy c status b h =
      ground (arith, h, progress-IsAbortedBy c status b)

  set_healthy :
      (status : RolloutStatus) (s : ConditionStatus) (reason message : String)
      → get_rollout_condition
          (set_rollout_condition status
            (new_rollout_condition now ConditionTypes.healthy s reason message)).0
          ConditionTypes.progressing
        ≡ get_rollout_condition status ConditionTypes.progressing
  unfolding new_rollout_condition
  set_healthy status s reason message =
      (set_rollout_condition-get status
          (new_rollout_condition now ConditionTypes.healthy s reason message)).1
        ConditionTypes.progressing
        (λ e. absurd (false≢true ((eq_iff ConditionTypes.progressing ConditionTypes.healthy).1 e)))

  -- The Progressing condition is not touched by that of the health.
  healthy_condition-progressing :
      (ro : Rollout) (status : RolloutStatus)
      → get_rollout_condition (healthy_condition now ro status).0 ConditionTypes.progressing
        ≡ get_rollout_condition status ConditionTypes.progressing
  unfolding healthy_condition
  healthy_condition-progressing ro status =
      elim (Bool-cases (not (is_paused ro) && rollout_healthy ro status)) [
        | inl y ↦ rw y (set_healthy status _ _ _)
        | inr n ↦
            elim (Bool-cases (is_some (get_rollout_condition ro.status ConditionTypes.healthy))) [
              | inl y ↦ rw (n, y) (set_healthy status _ _ _)
              | inr z ↦ rw (n, z) refl
            ]
      ]

  -- Where the rollout is aborted after its conditions are computed, it was aborted before; or it
  -- asks for an abort at the deadline, it is at no step that may take any time and under no pause,
  -- no other ReplicaSet waits to be scaled down, and the Progressing condition that the status had
  -- has passed its deadline.
  pub calculate_rollout_conditions-IsAbortedBy :
      (c : RolloutContext) (status : RolloutStatus)
      → IsAbortedBy now c status (calculate_rollout_conditions now lib c status).0
  unfolding calculate_rollout_conditions aborted_condition
  calculate_rollout_conditions-IsAbortedBy c status h = elim (Bool-cases (is_aborted c.pause)) [
    | inl y ↦ inl y
    | inr n ↦
        let health = healthy_condition now (the_rollout c) status in
        elim (rw (n, healthy_condition-progressing (the_rollout c) status) at
          (progressing_condition-IsAbortedBy c health.0 health.1 (rw n at h))) [
            | inl y ↦ absurd (false≢true y)
            | inr late ↦ inr late
          ]
  ]
