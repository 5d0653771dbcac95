-- ===== src/Status/Conditions/Laws.antt =====
-- What is found after a condition is set or removed.
use intuit_argo_rollouts_dem.Prelude.{
  ◌≡◌, ◌≢◌, inl, inr, refl, true, Option, none, some, List, [], ◌∷◌, ◌++◌, str_eq, eq_iff, eq_refl,
  arith, Bool-cases, if◌then◌else◌,
}
use intuit_argo_rollouts_dem.Rollout.{
  RolloutConditionType, ConditionStatus, RolloutCondition, RolloutStatus,
}
use intuit_argo_rollouts_dem.Status.Conditions.{
  same_status, find_kind, get_rollout_condition, filter_out_condition, set_over, put,
  set_rollout_condition,
}

same_status-eq : (a b : ConditionStatus) → same_status a b ≡ true → a ≡ b
same_status-eq a b h = ground arith

find_kind-filter :
    (k j : RolloutConditionType) (cs : List RolloutCondition)
    → find_kind k (filter_out_condition cs j) ≡ (if str_eq j k then none else find_kind k cs)
unfolding find_kind filter_out_condition
find_kind-filter k j [] = ground arith
find_kind-filter k j (c ∷ cs) =
    ground (arith, find_kind-filter k j cs, eq_iff c.kind j, eq_iff c.kind k, eq_iff j k)

abbrev or_last : Option RolloutCondition → Option RolloutCondition → Option RolloutCondition
or_last none y = y
or_last (some x) y = some x

find_kind-append :
    (k : RolloutConditionType) (cs : List RolloutCondition) (c : RolloutCondition)
    → find_kind k (cs ++ (c ∷ []))
      ≡ or_last (find_kind k cs) (if str_eq c.kind k then some c else none)
unfolding find_kind
find_kind-append k [] c = refl
find_kind-append k (x ∷ xs) c = ground (arith, find_kind-append k xs c)

find_kind-kind :
    (k : RolloutConditionType) (cs : List RolloutCondition) (c : RolloutCondition)
    → find_kind k cs ≡ some c
    → c.kind ≡ k
unfolding find_kind
find_kind-kind k [] c h = cc
find_kind-kind k (x ∷ xs) c h = ground (arith, find_kind-kind k xs c, eq_iff x.kind k)

-- Of a list with the condition put at its end, in the place of those of its type.
get-put :
    (status : RolloutStatus) (c : RolloutCondition) (k : RolloutConditionType)
    → get_rollout_condition (put status c) k
      ≡ (if str_eq c.kind k then some c else get_rollout_condition status k)
unfolding get_rollout_condition put
get-put status c k = ground (
  arith,
  find_kind-append k (filter_out_condition status.conditions c.kind) c,
  find_kind-filter k c.kind status.conditions,
)

-- A condition that has the status and the reason of the one that was set.
abbrev pub IsPut : RolloutCondition → Option RolloutCondition → RolloutStatus → Type 0
IsPut c before after =
    (d : RolloutCondition) × (get_rollout_condition after c.kind ≡ some d)
    × (d.status ≡ c.status)
    × (d.reason ≡ c.reason)
    × ((b : RolloutCondition)
        → before ≡ some b
        → b.status ≡ c.status
        → d.last_transition_time ≡ b.last_transition_time)

module _ (status : RolloutStatus) (c : RolloutCondition) where
  over_lem :
      (before : Option RolloutCondition)
      → get_rollout_condition status c.kind ≡ before
      → IsPut c before (set_over status c before).0
        × ((k : RolloutConditionType)
            → k ≢ c.kind
            → get_rollout_condition (set_over status c before).0 k ≡ get_rollout_condition status k)
  unfolding set_over
  over_lem none e = (
    (c, simp (get-put status c c.kind, eq_refl), refl, refl, λ b n. cc),
    λ k ne. ground (arith, get-put status c k, eq_iff c.kind k),
  )
  over_lem (some b) e = elim (Bool-cases (same_status b.status c.status)) [
    | inr differs ↦ rw differs (
      (c, simp (get-put status c c.kind, eq_refl), refl, refl, λ x n k. ground arith),
      λ k ne. ground (arith, get-put status c k, eq_iff c.kind k),
    )
    | inl same ↦ elim (Bool-cases (str_eq b.reason c.reason)) [
      | inl equal ↦
          rw (same, equal)
            (
              (
                b,
                e,
                same_status-eq b.status c.status same,
                (eq_iff b.reason c.reason).0 equal,
                λ x n k. cc,
              ),
              λ k ne. refl,
            )
      | inr other ↦
          let d = record c { last_transition_time = b.last_transition_time } in
          rw (same, other)
            (
              (d, simp (get-put status d c.kind, eq_refl), refl, refl, λ x n k. cc),
              λ k ne. ground (arith, get-put status d k, eq_iff c.kind k),
            )
    ]
  ]

  -- After a condition is set, the condition that is found for its type has its status and reason; its
  -- transition time is that of the condition before, if that had the same status; and for every
  -- other type the same condition is found as before.
  pub set_rollout_condition-get :
      IsPut c (get_rollout_condition status c.kind) (set_rollout_condition status c).0
      × ((k : RolloutConditionType)
          → k ≢ c.kind
          → get_rollout_condition (set_rollout_condition status c).0 k
            ≡ get_rollout_condition status k)
  unfolding set_rollout_condition
  set_rollout_condition-get = over_lem (get_rollout_condition status c.kind) refl
