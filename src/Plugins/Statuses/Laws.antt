-- ===== src/Plugins/Statuses/Laws.antt =====
-- The list of plugin statuses is a map from steps and operations to statuses.
use intuit_argo_rollouts_dem.Prelude.{
  ◌≡◌, refl, ap, ◌∙◌, not, Bool-cases, inl, inr, true, false, Bool, ◌&&◌, ◌==◌, ℕ, Option, none,
  some, List, [], ◌∷◌, All, arith, if◌then◌else◌,
}
use mathlib.Core.Option.{some-injective}
use intuit_argo_rollouts_dem.Rollout.{
  StepPluginOperation, run_operation, terminate_operation, plugin_running, plugin_successful,
  StepPluginStatus,
}
use intuit_argo_rollouts_dem.Plugins.Statuses.{
  same_operation, same_phase, is_of, Search, keep_looking, stop_with, search_at, search, or_search,
  found, get_step_to_terminate, find_current_step_status, update_step_plugin_status, operation_code,
}

nat-eq : (a b : ℕ) → (a == b) ≡ true → a ≡ b
nat-eq a b h = ground arith

and-left : (a b : Bool) → (a && b) ≡ true → a ≡ true
and-left true b h = refl
and-left false b h = h

and-right : (a b : Bool) → (a && b) ≡ true → b ≡ true
and-right true b h = h
and-right false b h = absurd (ground arith)

-- A status that is of the step and the operation of another is of what the other is of.
is_of-same :
    (i : ℕ) (op : StepPluginOperation) (new s : StepPluginStatus)
    → is_of new.index new.operation s ≡ true
    → is_of i op s ≡ is_of i op new
is_of-same i op new s h =
    let a =
      nat-eq (operation_code s.operation) (operation_code new.operation)
        (and-right (s.index == new.index) (same_operation s.operation new.operation) h) in
    let b =
      nat-eq s.index new.index
        (and-left (s.index == new.index) (same_operation s.operation new.operation) h) in
    ap (λ k. k == i && same_operation s.operation op) b
    ∙ ap (λ k. new.index == i && k == operation_code op) a

is_of-both :
    (i : ℕ) (op : StepPluginOperation) (new s : StepPluginStatus)
    → is_of i op s ≡ true
    → is_of i op new ≡ true
    → is_of new.index new.operation s ≡ true
is_of-both i op new s h k =
    let a =
      nat-eq (operation_code new.operation) (operation_code op)
        (and-right (new.index == i) (same_operation new.operation op) k) in
    let b = nat-eq new.index i (and-left (new.index == i) (same_operation new.operation op) k) in
    ap (λ n. s.index == n && same_operation s.operation new.operation) b
    ∙ ap (λ n. s.index == i && operation_code s.operation == n) a
    ∙ h

-- What is found in the list with a status at its head, whether or not the update replaces it.
find_with :
    (same old_here new_here : Bool) (s new : StepPluginStatus) (rest : Option StepPluginStatus)
    → (same ≡ true → old_here ≡ new_here)
    → (old_here ≡ true → new_here ≡ true → same ≡ true)
    → (if same
        then (if new_here then some new else rest)
        else if old_here
        then some s
        else (if new_here then some new else rest))
      ≡ (if new_here then some new else if old_here then some s else rest)
find_with true true n s new rest h k = ground (arith, h refl)
find_with true false n s new rest h k = refl
find_with false true true s new rest h k = absurd (ground (arith, k refl refl))
find_with false true false s new rest h k = refl
find_with false false n s new rest h k = refl

-- Looking in the updated list, by whether its head is replaced.
find-cons :
    (same : Bool) (s new : StepPluginStatus) (ss : List StepPluginStatus)
    (rest : List StepPluginStatus × Bool) (i : ℕ) (op : StepPluginOperation) (changed : Bool)
    → find_current_step_status
        (if◌then◌else◌ {A = List StepPluginStatus × Bool} same
          (new ∷ ss, changed)
          (s ∷ rest.0, rest.1)).0
        i
        op
      ≡ (if same
          then (if is_of i op new then some new else find_current_step_status ss i op)
          else if is_of i op s
          then some s
          else find_current_step_status rest.0 i op)
unfolding find_current_step_status
find-cons true s new ss rest i op changed = refl
find-cons false s new ss rest i op changed = refl

-- Looking a step and an operation up after an update gives the new status for its own step and
-- operation, and what it gave before for every other.
pub update_step_plugin_status-find :
    (ss : List StepPluginStatus) (new : StepPluginStatus) (i : ℕ) (op : StepPluginOperation)
    → find_current_step_status (update_step_plugin_status ss new).0 i op
      ≡ (if is_of i op new then some new else find_current_step_status ss i op)
unfolding find_current_step_status update_step_plugin_status
update_step_plugin_status-find [] new i op = refl
update_step_plugin_status-find (s ∷ ss) new i op =
    find-cons (is_of new.index new.operation s) s new ss (update_step_plugin_status ss new) i op
      (not (same_phase s.phase new.phase))
    ∙ ap
        (λ r.
          if is_of new.index new.operation s
          then (if is_of i op new then some new else find_current_step_status ss i op)
          else if is_of i op s
          then some s
          else r)
        (update_step_plugin_status-find ss new i op)
    ∙ find_with (is_of new.index new.operation s) (is_of i op s) (is_of i op new) s new
        (find_current_step_status ss i op) (is_of-same i op new s) (is_of-both i op new s)

-- What the search returns is the step of a status of the list.
IsFrom : (StepPluginStatus → Type 0) → Search → Type 0
IsFrom P keep_looking = Unit
IsFrom P (stop_with none) = Unit
IsFrom P (stop_with (some i)) = (s : StepPluginStatus) × P s × (s.index ≡ i)

search_at-IsFrom :
    (P : StepPluginStatus → Type 0) (s : StepPluginStatus) → P s → IsFrom P (search_at s)
unfolding IsFrom search_at
search_at-IsFrom P s h =
    elim (Bool-cases
      (same_operation s.operation terminate_operation && same_phase s.phase plugin_successful)) [
        | inl e ↦ rw e tt
        | inr e ↦
            elim (Bool-cases
              (same_operation s.operation run_operation && same_phase s.phase plugin_running)) [
                | inl k ↦ rw (e, k) (s, h, refl)
                | inr k ↦ rw (e, k) tt
              ]
      ]

or_here :
    (P : StepPluginStatus → Type 0) (s : StepPluginStatus) (r : Search)
    → P s
    → IsFrom P r
    → IsFrom P (or_search s r)
unfolding IsFrom or_search
or_here P s keep_looking h k = search_at-IsFrom P s h
or_here P s (stop_with r) h k = k

found-IsFrom :
    (P : StepPluginStatus → Type 0) (r : Search) (i : ℕ)
    → IsFrom P r
    → found r ≡ some i
    → (s : StepPluginStatus) × P s × (s.index ≡ i)
unfolding IsFrom found
found-IsFrom P keep_looking i h e = absurd (ground (arith, e))
found-IsFrom P (stop_with none) i h e = absurd (ground (arith, e))
found-IsFrom P (stop_with (some j)) i (s, h, k) e = (s, h, k ∙ some-injective j i e)

search-IsFrom :
    (P : StepPluginStatus → Type 0) (ss : List StepPluginStatus) → All P ss → IsFrom P (search ss)
unfolding IsFrom search
search-IsFrom P [] h = tt
search-IsFrom P (s ∷ ss) (h, hs) = or_here P s (search ss) h (search-IsFrom P ss hs)

pub get_step_to_terminate-All :
    (P : StepPluginStatus → Type 0) (ss : List StepPluginStatus) (i : ℕ)
    → All P ss
    → get_step_to_terminate ss ≡ some i
    → (s : StepPluginStatus) × P s × (s.index ≡ i)
unfolding get_step_to_terminate
get_step_to_terminate-All P ss i h e = found-IsFrom P (search ss) i (search-IsFrom P ss h) e
