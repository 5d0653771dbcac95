-- ===== src/Plugins/Safe.antt =====
-- The reconciliation of step plugins never indexes past the steps.
use intuit_argo_rollouts_dem.Prelude.{
  ◌≡◌, refl, ℕ, zero, suc, ◌<◌, ◌≤◌, String, true, false, ◌||◌, Option, none, some, List, [], ◌∷◌,
  length, get_elem?, All, is_some, arith, Bool-cases, inl, inr,
}
use mathlib.Core.Path.{subst}
use mathlib.Core.Option.{some-injective}
use intuit_argo_rollouts_dem.Common.{Time, Duration, Library}
use intuit_argo_rollouts_dem.Rollout.{
  CanaryStep, StepPluginStatus, Rollout, run_operation, plugin_running, plugin_error,
}
use intuit_argo_rollouts_dem.Pause.{PauseContext}
use intuit_argo_rollouts_dem.Canary.Steps.{steps_of, get_current_canary_step, index_or_zero}
use intuit_argo_rollouts_dem.Plugins.Statuses.{
  update_step_plugin_status, is_of, same_operation, same_phase, get_step_to_terminate,
}
use intuit_argo_rollouts_dem.Plugins.Statuses.Laws.{get_step_to_terminate-All}
use intuit_argo_rollouts_dem.Plugins.{
  Answer, StepPlugin, Resolver, statuses_of, with_status, Round, panics, fails, goes_on, answered,
  call, seen, after_round, clean_status_for_retry, abort_plugin, abort_step, abort_status,
  abort_from, terminate_at, terminate_last, delayed, remaining, back_off, after_run, ran,
  run_plugin, run_step, reconcile, Reconciled,
}

-- A returned status is that of the step.
abbrev pub IsOfStep : ℕ → Answer → Type 0
IsOfStep index none = Unit
IsOfStep index (some none) = Unit
IsOfStep index (some (some s)) = s.index ≡ index

-- The status of a run that is to be repeated says when it was updated.
abbrev pub IsTimed : Answer → Type 0
IsTimed none = Unit
IsTimed (some none) = Unit
IsTimed (some (some s)) =
    s.disabled ≡ false
    → same_phase s.phase plugin_running || same_phase s.phase plugin_error ≡ true
    → is_some s.updated_at ≡ true

pub record IsPlugin (index : ℕ) (p : StepPlugin) : Type 0 where
  pub run-IsTimed : (ro : Rollout) → IsTimed (p.run ro)
  pub terminate-IsOfStep : (ro : Rollout) → IsOfStep index (p.terminate ro)
  pub abort_run-IsOfStep : (ro : Rollout) → IsOfStep index (p.abort_run ro)

abbrev pub IsResolver : Resolver → Type 0
IsResolver resolve =
    (index : ℕ) (name : String) (p : StepPlugin) → resolve index name ≡ some p → IsPlugin index p

-- Every recorded status is that of a step.
abbrev pub InRange : List CanaryStep → List StepPluginStatus → Type 0
InRange steps = All (λ s. s.index < length steps)

get_elem?-is_some {ℓ} :
    {A : Type ℓ} (xs : List A) (i : ℕ) → i < length xs → is_some (get_elem? xs i) ≡ true
get_elem?-is_some [] i h = absurd (ground arith)
get_elem?-is_some (x ∷ xs) zero h = refl
get_elem?-is_some (x ∷ xs) (suc i) h = get_elem?-is_some xs i (omega (arith, h))

get_elem?-All {ℓ κ} :
    {A : Type ℓ} (P : A → Type κ) (xs : List A) (i : ℕ) (x : A)
    → All P xs
    → get_elem? xs i ≡ some x
    → P x
get_elem?-All P [] i x h k = absurd (ground arith)
get_elem?-All P (y ∷ xs) zero x (h, hs) k = subst P (some-injective y x k) h
get_elem?-All P (y ∷ xs) (suc i) x (h, hs) k = get_elem?-All P xs i x hs k

update-InRange :
    (steps : List CanaryStep) (ss : List StepPluginStatus) (s : StepPluginStatus)
    → InRange steps ss
    → s.index < length steps
    → InRange steps (update_step_plugin_status ss s).0
unfolding update_step_plugin_status
update-InRange steps [] s h k = (k, tt)
update-InRange steps (x ∷ ss) s (h, hs) k = elim (Bool-cases (is_of s.index s.operation x)) [
  | inl e ↦ rw e (k, hs)
  | inr e ↦ rw e (h, update-InRange steps ss s hs k)
]

length-update :
    (ss : List StepPluginStatus) (s : StepPluginStatus)
    → length ss ≤ length (update_step_plugin_status ss s).0
unfolding update_step_plugin_status
length-update [] s = omega arith
length-update (x ∷ ss) s = ground (arith, length-update ss s)

-- A round of the loop does not panic, and leaves every status in range and none out.
IsSafe : List CanaryStep → ℕ → Round → Type 0
IsSafe steps n panics = ⊥
IsSafe steps n fails = Unit
IsSafe steps n (goes_on ss) = InRange steps ss × (n ≤ length ss)

module _ (resolve : Resolver) (resolves : IsResolver resolve) where
  answered-IsSafe :
      (steps : List CanaryStep) (n index : ℕ) (ss : List StepPluginStatus) (a : Answer)
      → InRange steps ss
      → n ≤ length ss
      → index < length steps
      → IsOfStep index a
      → IsSafe steps n (answered ss a)
  unfolding answered IsSafe
  answered-IsSafe steps n index ss none h k b o = tt
  answered-IsSafe steps n index ss (some none) h k b o = (h, k)
  answered-IsSafe steps n index ss (some (some s)) h k b o =
      (update-InRange steps ss s h (omega (arith, b, o)), omega (arith, k, length-update ss s))

  abort_call-IsOfStep :
      (ro : Rollout) (index : ℕ) (name : String) (p : Option StepPlugin)
      → resolve index name ≡ p
      → IsOfStep index (call (λ s. s.abort_run ro) p)
  unfolding call
  abort_call-IsOfStep ro index name none e = tt
  abort_call-IsOfStep ro index name (some p) e = (resolves index name p e).abort_run-IsOfStep ro

  terminate_call-IsOfStep :
      (ro : Rollout) (index : ℕ) (name : String) (p : Option StepPlugin)
      → resolve index name ≡ p
      → IsOfStep index (call (λ s. s.terminate ro) p)
  unfolding call
  terminate_call-IsOfStep ro index name none e = tt
  terminate_call-IsOfStep ro index name (some p) e = (resolves index name p e).terminate-IsOfStep ro

  run_call-IsTimed :
      (ro : Rollout) (index : ℕ) (name : String) (p : Option StepPlugin)
      → resolve index name ≡ p
      → IsTimed (call (λ s. s.run ro) p)
  unfolding call
  run_call-IsTimed ro index name none e = tt
  run_call-IsTimed ro index name (some p) e = (resolves index name p e).run-IsTimed ro

  module _ (ro : Rollout) where
    abbrev steps : List CanaryStep
    steps = steps_of ro.spec.canary

    abort_plugin-IsSafe :
        (n index : ℕ) (ss : List StepPluginStatus) (name : Option String)
        → InRange steps ss
        → n ≤ length ss
        → index < length steps
        → IsSafe steps n (abort_plugin resolve ro ss index name)
    unfolding abort_plugin IsSafe
    abort_plugin-IsSafe n index ss none h k b = (h, k)
    abort_plugin-IsSafe n index ss (some name) h k b =
        answered-IsSafe steps n index ss (call (λ p. p.abort_run (seen ro ss)) (resolve index name))
          h k b (abort_call-IsOfStep (seen ro ss) index name (resolve index name) refl)

    abort_step-IsSafe :
        (n index : ℕ) (ss : List StepPluginStatus) (step : Option CanaryStep)
        → InRange steps ss
        → n ≤ length ss
        → index < length steps
        → is_some step ≡ true
        → IsSafe steps n (abort_step resolve ro ss index step)
    unfolding abort_step
    abort_step-IsSafe n index ss none h k b e = absurd (ground (arith, e))
    abort_step-IsSafe n index ss (some step) h k b e =
        abort_plugin-IsSafe n index ss step.plugin h k b

    abort_status-IsSafe :
        (n i : ℕ) (ss : List StepPluginStatus) (s : Option StepPluginStatus)
        → InRange steps ss
        → n ≤ length ss
        → get_elem? ss i ≡ s
        → is_some s ≡ true
        → IsSafe steps n (abort_status resolve ro ss s)
    unfolding abort_status IsSafe
    abort_status-IsSafe n i ss none h k g e = absurd (ground (arith, e))
    abort_status-IsSafe n i ss (some s) h k g e =
        let b = get_elem?-All (λ x. x.index < length steps) ss i s h g in
        elim (Bool-cases (same_operation s.operation run_operation)) [
          | inl o ↦ rw o (
              abort_step-IsSafe n s.index ss (get_elem? steps s.index) h k b
                (get_elem?-is_some steps s.index b))
          | inr o ↦ rw o (h, k)
        ]

    after_round-is_some :
        (p : PauseContext) (n : ℕ) (ss : List StepPluginStatus) (r : Round)
        (continue : List StepPluginStatus → Option Reconciled)
        → IsSafe steps n r
        → ((next : List StepPluginStatus)
            → InRange steps next
            → n ≤ length next
            → is_some (continue next) ≡ true)
        → is_some (after_round resolve ro p ss r continue) ≡ true
    unfolding after_round IsSafe
    after_round-is_some p n ss panics continue h k = absurd h
    after_round-is_some p n ss fails continue h k = refl
    after_round-is_some p n ss (goes_on next) continue (h, l) k = k next h l

    abort_from-is_some :
        (p : PauseContext) (i : ℕ) (ss : List StepPluginStatus)
        → InRange steps ss
        → i ≤ length ss
        → is_some (abort_from resolve ro p i ss) ≡ true
    unfolding abort_from
    abort_from-is_some p zero ss h k = refl
    abort_from-is_some p (suc i) ss h k =
        after_round-is_some p i ss (abort_status resolve ro ss (get_elem? ss i))
          (λ next. abort_from resolve ro p i next)
          (abort_status-IsSafe i i ss (get_elem? ss i) h (omega (arith, k)) refl
            (get_elem?-is_some ss i (omega (arith, k))))
          (λ next r l. abort_from-is_some p i next r l)

    terminate_at-is_some :
        (p : PauseContext) (i : ℕ) (step : Option CanaryStep)
        → is_some step ≡ true
        → is_some (terminate_at resolve ro p i step) ≡ true
    unfolding terminate_at
    terminate_at-is_some p i none e = absurd (ground (arith, e))
    terminate_at-is_some p i (some step) e = refl

    terminate_last-is_some :
        (p : PauseContext) (i : Option ℕ)
        → get_step_to_terminate (statuses_of ro) ≡ i
        → InRange steps (statuses_of ro)
        → is_some (terminate_last resolve ro p i) ≡ true
    unfolding terminate_last
    terminate_last-is_some p none e h = refl
    terminate_last-is_some p (some i) e h =
        let (s, b, k) =
          get_step_to_terminate-All (λ s. s.index < length steps) (statuses_of ro) i h e in
        terminate_at-is_some p i (get_elem? steps i)
          (get_elem?-is_some steps i (omega (arith, b, k)))

  module _ (lib : Library) (now : Time) (p : PauseContext) where
    back_off-is_some :
        (s : StepPluginStatus) (ss : List StepPluginStatus) (d : Option Duration)
        → is_some s.updated_at ≡ true
        → is_some (back_off lib now p s ss d) ≡ true
    unfolding back_off remaining delayed
    back_off-is_some s ss none h = refl
    back_off-is_some s ss (some d) h = ground (arith, h)

    ran-is_some :
        (ss : List StepPluginStatus) (a : Answer) → IsTimed a → is_some (ran lib now p ss a) ≡ true
    unfolding ran after_run
    ran-is_some ss none h = refl
    ran-is_some ss (some none) h = refl
    ran-is_some ss (some (some s)) h =
        ground
          (arith, h, back_off-is_some s (with_status ss (some s)) (lib.parse_duration s.backoff))

    run_plugin-is_some :
        (ss : List StepPluginStatus) (i : ℕ) (name : Option String)
        → is_some (run_plugin lib now resolve p ss i name) ≡ true
    unfolding run_plugin
    run_plugin-is_some ss i none = refl
    run_plugin-is_some ss i (some name) = ground (
      arith,
      ran-is_some ss (call (λ s. s.run p.rollout) (resolve i name))
          (run_call-IsTimed p.rollout i name (resolve i name) refl),
    )

    run_step-is_some :
        (ss : List StepPluginStatus) (current : Option CanaryStep × Option ℕ)
        → is_some (run_step lib now resolve p ss current) ≡ true
    unfolding run_step
    run_step-is_some ss (none, i) = refl
    run_step-is_some ss (some step, i) = run_plugin-is_some ss (index_or_zero i) step.plugin

    -- Where every recorded status is that of a step, and the plugins return statuses of the step
    -- they are called for, with the time of the update where a run is to be repeated, the
    -- reconciliation of step plugins ends without a panic.
    pub reconcile-is_some :
        InRange (steps_of p.rollout.spec.canary) (statuses_of p.rollout)
        → is_some (reconcile lib now resolve p) ≡ true
    unfolding reconcile
    reconcile-is_some h =
        let ss = statuses_of p.rollout in
        ground (
          arith,
          abort_from-is_some p.rollout p (length ss) ss h (omega arith),
          terminate_last-is_some p.rollout p (get_step_to_terminate ss) refl h,
          run_step-is_some (clean_status_for_retry p.rollout ss)
              (get_current_canary_step p.rollout),
        )
