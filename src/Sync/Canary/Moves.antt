-- ===== src/Sync/Canary/Moves.antt =====
-- The ways in which the step index of a canary moves.
use intuit_argo_rollouts_dem.Prelude.{
  ◌≡◌, inl, inr, refl, ℕ, zero, suc, ◌<◌, ◌≤◌, Bool, true, false, not, ◌&&◌, ◌==◌, Option, none,
  some, List, [], ◌∷◌, arith, length, if◌then◌else◌, Bool-cases,
}
use intuit_argo_rollouts_dem.Rollout.{CanaryStep, CanaryStrategy}
use intuit_argo_rollouts_dem.Canary.Steps.{index_or_zero, steps_of}
use intuit_argo_rollouts_dem.Sync.{first_index, last_step_index}
use intuit_argo_rollouts_dem.Sync.Canary.{increment}

-- The index that the current step is looked at with.
abbrev pub index_after : (skips : Bool) (count i : ℕ) → Option ℕ
index_after skips count i =
    if skips && not (count == 0) then some count else (if count == 0 then none else some i)

-- What a reconciliation goes by: whether the template or the steps have changed, the new ReplicaSet
-- is the stable one or one in the rollback window, the steps are skipped, the rollout is promoted,
-- it is aborted, its current ReplicaSet is the stable one, and the current step is completed.
pub record Situation : Type 0 where
  pub changed : Bool
  pub returns : Bool
  pub skips : Bool
  pub promotes : Bool
  pub aborted : Bool
  pub is_stable : Bool
  pub completed : Bool

-- There are steps.
abbrev pub HasSteps : ℕ → Type 0
HasSteps count = (count == 0) ≡ false

abbrev pub IsAborting : Situation → Type 0
IsAborting w = (w.changed ≡ false) × (w.promotes ≡ false) × (w.aborted ≡ true)

-- The current step is looked at.
abbrev pub IsStepping : Situation → Type 0
IsStepping w = (w.changed ≡ false) × (w.promotes ≡ false) × (w.aborted ≡ false)

-- How the step index of a canary with `count` steps moves from `i`.
pub data Moves (w : Situation) (count i : ℕ) : Option ℕ → Type 0 where
  without_steps : count ≡ 0 → Moves w count i none
  restarts : HasSteps count → w.changed ≡ true → w.returns ≡ false → Moves w count i (some 0)
  returns_to_end :
      HasSteps count → w.changed ≡ true → w.returns ≡ true → Moves w count i (some count)
  promotes_to_end :
      HasSteps count → w.changed ≡ false → w.promotes ≡ true → Moves w count i (some count)
  aborts_to_end : HasSteps count → IsAborting w → w.is_stable ≡ true → Moves w count i (some count)
  aborts_to_start : HasSteps count → IsAborting w → w.is_stable ≡ false → Moves w count i (some 0)
  skips_to_end :
      HasSteps count
      → IsStepping w
      → w.skips ≡ true
      → w.completed ≡ false
      → Moves w count i (some count)
  stays :
      HasSteps count
      → IsStepping w
      → w.skips ≡ false
      → w.completed ≡ false
      → Moves w count i (some i)
  advances :
      IsStepping w
      → w.skips ≡ false
      → w.completed ≡ true
      → i < count
      → Moves w count i (some (suc i))
  past_the_end :
      HasSteps count
      → IsStepping w
      → w.skips ≡ true
      → w.completed ≡ true
      → Moves w count i (some (suc count))

-- Where the index was in bounds it stays so, except for the last way.
pub Moves-bound :
    (w : Situation) (count i : ℕ) (j : Option ℕ)
    → i ≤ count
    → Moves w count i j
    → index_or_zero j ≤ (if w.skips && w.completed then suc count else count)
Moves-bound w count i _ b (without_steps z) = ground arith
Moves-bound w count i _ b (restarts s h k) = ground arith
Moves-bound w count i _ b (returns_to_end s h k) = ground arith
Moves-bound w count i _ b (promotes_to_end s h k) = ground arith
Moves-bound w count i _ b (aborts_to_end s h k) = ground arith
Moves-bound w count i _ b (aborts_to_start s h k) = ground arith
Moves-bound w count i _ b (skips_to_end s h k l) = ground (arith, k, l)
Moves-bound w count i _ b (stays s h k l) = ground (arith, k, l)
Moves-bound w count i _ b (advances h k l m) = ground (arith, k, l, m)
Moves-bound w count i _ b (past_the_end s h k l) = ground (arith, k, l)

pub suc-nonzero : (n : ℕ) → (suc n == 0) ≡ false
suc-nonzero n = ground arith

module _ (w : Situation) (i : ℕ) where
  pub restart-Moves :
      (ss : List CanaryStep)
      → w.changed ≡ true
      → Moves w
          (length ss)
          i
          (if w.returns && not (length ss == 0) then some (length ss) else first_index ss)
  restart-Moves [] h = elim (Bool-cases w.returns) [
    | inl y ↦ simp y (without_steps refl)
    | inr n ↦ simp n (without_steps refl)
  ]
  restart-Moves (s ∷ ss) h = elim (Bool-cases w.returns) [
    | inl y ↦ simp (y, suc-nonzero (length ss)) (returns_to_end (suc-nonzero (length ss)) h y)
    | inr n ↦ simp n (restarts (suc-nonzero (length ss)) h n)
  ]

  at_end-Moves :
      (count : ℕ)
      → w.changed ≡ false
      → w.promotes ≡ true
      → Moves w count i (if count == 0 then none else some count)
  at_end-Moves zero h k = without_steps refl
  at_end-Moves (suc n) h k = rw (suc-nonzero n) (promotes_to_end (suc-nonzero n) h k)

  pub last_step_index-Moves :
      (canary : Option CanaryStrategy)
      → w.changed ≡ false
      → w.promotes ≡ true
      → Moves w (length (steps_of canary)) i (last_step_index canary none)
  unfolding last_step_index
  last_step_index-Moves none h k = without_steps refl
  last_step_index-Moves (some s) h k = at_end-Moves (length s.steps) h k

  pub abort-Moves :
      (count : ℕ)
      → IsAborting w
      → Moves w count i (if count == 0 then none else if w.is_stable then some count else some 0)
  abort-Moves zero h = without_steps refl
  abort-Moves (suc n) h = elim (Bool-cases w.is_stable) [
    | inl y ↦ simp (suc-nonzero n, y) (aborts_to_end (suc-nonzero n) h y)
    | inr z ↦ simp (suc-nonzero n, z) (aborts_to_start (suc-nonzero n) h z)
  ]

  -- The index that a step is looked at with, and the index after it.
  pub step-Moves :
      (count : ℕ)
      → IsStepping w
      → (w.completed ≡ true → i < count)
      → Moves w count i (
          if w.completed
          then increment (index_after w.skips count i)
          else index_after w.skips count i)
  unfolding increment
  step-Moves count h below = elim (Bool-cases (count == 0)) [
    | inl z ↦ elim (Bool-cases w.completed) [
      | inl y ↦ absurd (ground (arith, z, below y))
      | inr n ↦ elim (Bool-cases w.skips) [
        | inl k ↦ simp (z, n, k) (without_steps (ground (arith, z)))
        | inr k ↦ simp (z, n, k) (without_steps (ground (arith, z)))
      ]
    ]
    | inr p ↦ elim (Bool-cases w.skips) [
      | inl k ↦ elim (Bool-cases w.completed) [
        | inl y ↦ simp (p, k, y) (past_the_end p h k y)
        | inr n ↦ simp (p, k, n) (skips_to_end p h k n)
      ]
      | inr k ↦ elim (Bool-cases w.completed) [
        | inl y ↦ simp (p, k, y) (advances h k y (below y))
        | inr n ↦ simp (p, k, n) (stays p h k n)
      ]
    ]
  ]
