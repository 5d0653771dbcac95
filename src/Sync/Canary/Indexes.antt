-- ===== src/Sync/Canary/Indexes.antt =====
-- The step index in the parts of the reconciliation of a canary.
use intuit_argo_rollouts_dem.Prelude.{
  ◌≡◌, refl, sym, ap, ◌∙◌, ℕ, ◌<◌, Bool, true, false, not, ◌&&◌, ◌||◌, ◌==◌, Option, none, some,
  List, [], ◌∷◌, arith, is_some, str_eq, length, if◌then◌else◌,
}
use mathlib.Core.Option.{some-injective}
use intuit_argo_rollouts_dem.Common.{Time, Library}
use intuit_argo_rollouts_dem.Rollout.{Rollout, RolloutStatus, unset_phase, CanaryStep}
use intuit_argo_rollouts_dem.Canary.Types.{ReplicaSet}
use intuit_argo_rollouts_dem.Canary.Floats.{Float64}
use intuit_argo_rollouts_dem.Canary.Fenceposts.{OfPercent}
use intuit_argo_rollouts_dem.Canary.Steps.{
  get_current_canary_step, index_or_zero, steps_of, step_at,
}
use intuit_argo_rollouts_dem.Pause.{
  clear_pause_conditions, remove_abort, calculate_pause_status, pause_status,
}
use intuit_argo_rollouts_dem.Context.{RolloutContext, the_rollout}
use intuit_argo_rollouts_dem.Sync.{
  promote_stable, reset_rollout_status, reset_current_step_index, first_index, last_step_index,
  switched, calculate_base_status, is_rollback_within_window, is_active,
}
use intuit_argo_rollouts_dem.Sync.Conditions.{calculate_rollout_conditions}
use intuit_argo_rollouts_dem.Sync.Conditions.Keeps.{calculate_rollout_conditions-forget}
use intuit_argo_rollouts_dem.Sync.Canary.Moves.{index_after}
use intuit_argo_rollouts_dem.Sync.Canary.{
  completed_current_canary_step, completed_step, canary_base, step_count, is_stable_set, restarted,
  aborted_status, skips_steps, unskipped, next_index, increment, promoted, stepped, persisted,
  finish,
}

-- The index of the current step is there with the steps, and below their number where there is a step.
step_at-index :
    (ss : List CanaryStep) (i : ℕ) → (step_at ss i).1 ≡ (if length ss == 0 then none else some i)
unfolding step_at
step_at-index [] i = refl
step_at-index (s ∷ ss) i = ground arith

step_at-lt : (ss : List CanaryStep) (i : ℕ) → is_some (step_at ss i).0 ≡ true → i < length ss
unfolding step_at
step_at-lt [] i h = ground arith
step_at-lt (s ∷ ss) i h = ground arith

abbrev pub index_of : RolloutContext → ℕ
index_of c = index_or_zero (the_rollout c).status.current_step_index

-- What is sent is what the transition gives, but for the conditions, the pauses and the phase.
abbrev pub core : RolloutStatus → RolloutStatus
core status = record status {
  conditions = [];
  pause_conditions = [];
  controller_pause = false;
  abort = false;
  aborted_at = none;
  observed_generation = "";
  phase = unset_phase;
  message = "";
}

module _ (lib : Library) (fl : Float64) (of_percent : OfPercent) (now : Time) where
  completed_step-is_some :
      (c : RolloutContext) (current : Option CanaryStep × Option ℕ)
      → completed_step lib fl of_percent now c current ≡ true
      → is_some current.0 ≡ true
  unfolding completed_step
  completed_step-is_some c (none, i) h = h
  completed_step-is_some c (some s, i) h = refl

  -- A step that is completed is one of the steps.
  pub completed_current_canary_step-lt :
      (c : RolloutContext)
      → completed_current_canary_step lib fl of_percent now c ≡ true
      → index_of c < step_count c
  unfolding completed_current_canary_step get_current_canary_step
  completed_current_canary_step-lt c h =
      step_at-lt (steps_of (the_rollout c).spec.canary) (index_of c)
        (completed_step-is_some c (get_current_canary_step (the_rollout c)) (ground (arith, h)))

-- Whether the new ReplicaSet is the stable one, or an active one to which the rollout rolls back
-- within the window.
abbrev pub returns_with : RolloutContext → Option ReplicaSet → Bool
returns_with c none = false
returns_with c (some rs) =
    str_eq (the_rollout c).status.stable_rs rs.pod_hash
    || (is_rollback_within_window c && is_active c (some rs))

-- The index after a restart.
restarted-with :
    (c : RolloutContext) (new : Option ReplicaSet) (few : Bool)
    → is_some new
        && not few
        && (is_stable_set (the_rollout c).status.stable_rs new
            || (is_rollback_within_window c && is_active c new))
      ≡ (returns_with c new && not few)
unfolding is_stable_set
restarted-with c none few = refl
restarted-with c (some rs) few = ground arith

pub restarted-index :
    (c : RolloutContext)
    → (restarted c).1.current_step_index ≡ (
        if returns_with c c.new_rs && not (step_count c == 0)
        then some (step_count c)
        else first_index (steps_of (the_rollout c).spec.canary))
unfolding restarted reset_rollout_status reset_current_step_index
restarted-index c = rw⁻¹ (restarted-with c c.new_rs (step_count c == 0)) (ground arith)

-- The index after a promotion.
pub promote_stable-index :
    (c : RolloutContext) (status : RolloutStatus)
    → (promote_stable c status).1.current_step_index
      ≡ last_step_index (the_rollout c).spec.canary status.current_step_index
unfolding promote_stable switched
promote_stable-index c status = ground arith

pub promoted-eq :
    (c d : RolloutContext) (s t : RolloutStatus) (ok : Bool)
    → promoted (c, s, ok) ≡ some (d, t)
    → (ok ≡ true) × (c ≡ d) × (s ≡ t)
unfolding promoted
promoted-eq c d s t true h = (
  refl,
  ap (λ p. p.0) (some-injective (c, s) (d, t) h),
  ap (λ p. p.1) (some-injective (c, s) (d, t) h),
)
promoted-eq c d s t false h = absurd (ground (arith, h))

module _ (lib : Library) (fl : Float64) (of_percent : OfPercent) (now : Time) where
  -- What the reconciliation goes by: whether the current step is completed.
  abbrev pub completes : RolloutContext → Bool
  completes c = completed_current_canary_step lib fl of_percent now c

  pub stepped-index :
      (c : RolloutContext) (index : Option ℕ) (status : RolloutStatus)
      → (stepped lib fl of_percent now c index status).1.current_step_index
        ≡ (if completes c then increment index else index)
  unfolding stepped
  stepped-index c index status = ground arith

  pub aborted_status-index :
      (c : RolloutContext) (status : RolloutStatus)
      → status.current_step_index ≡ none
      → (aborted_status c status).current_step_index ≡ (
          if step_count c == 0
          then none
          else if str_eq status.stable_rs status.current_pod_hash
          then some (step_count c)
          else some 0)
  unfolding aborted_status
  aborted_status-index c status h = ground (arith, h)

  pub unskipped-rollout : (c : RolloutContext) → the_rollout (unskipped c) ≡ the_rollout c
  unfolding unskipped clear_pause_conditions remove_abort
  unskipped-rollout c = ground arith

  pub next_index-index :
      (c : RolloutContext) → next_index c ≡ index_after (skips_steps c) (step_count c) (index_of c)
  unfolding next_index get_current_canary_step
  next_index-index c =
      ground (arith, step_at-index (steps_of (the_rollout c).spec.canary) (index_of c))

  pub canary_base-index :
      (c : RolloutContext)
      → c.new_status.current_step_index ≡ none
      → (canary_base c).current_step_index ≡ none
  unfolding canary_base calculate_base_status
  canary_base-index c u = u

  pub canary_base-stable :
      (c : RolloutContext) → (canary_base c).stable_rs ≡ (the_rollout c).status.stable_rs
  unfolding canary_base
  canary_base-stable c = refl

  abbrev pub step_count_of : Rollout → ℕ
  step_count_of ro = length (steps_of ro.spec.canary)

  abbrev pub index_of_rollout : Rollout → ℕ
  index_of_rollout ro = index_or_zero ro.status.current_step_index

  persisted-core :
      (c : RolloutContext) (status : RolloutStatus)
      → core (persisted lib fl of_percent now c status) ≡ core status
  unfolding persisted calculate_pause_status pause_status
  persisted-core c status = ground arith

  pub finish-status :
      (s : RolloutStatus) (o : Option (RolloutContext × RolloutStatus))
      → finish lib fl of_percent now o ≡ some s
      → (e : RolloutContext) × (t : RolloutStatus) × (o ≡ some (e, t)) × (core s ≡ core t)
  unfolding finish
  finish-status s none h = absurd (ground (arith, h))
  finish-status s (some (e, t)) h =
      let next = calculate_rollout_conditions now lib e t in
      (
        e,
        t,
        refl,
        sym (ap core (some-injective (persisted lib fl of_percent now next.0 next.1) s h))
            ∙ persisted-core next.0 next.1
            ∙ ap core (calculate_rollout_conditions-forget now lib e t),
      )
