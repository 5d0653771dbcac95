-- ===== src/Status/Phase/Healthy.antt =====
-- When a rollout is healthy.
use intuit_argo_rollouts_dem.Prelude.{
  ◌≡◌, ◌≢◌, ◌↔◌, refl, Bool, true, false, Option, none, some, List, [], ◌∷◌, ◌≤ℤ◌, str_eq, ltb_ℤ,
  All, arith, is_some, if◌then◌else◌, Bool-cases, inl, inr,
}
use intuit_argo_rollouts_dem.Rollout.{
  RolloutCondition, BlueGreenStrategy, CanaryStrategy, PauseCondition, healthy_phase, paused_phase,
  RolloutSpec, RolloutStatus,
}
use intuit_argo_rollouts_dem.Rollout.ConditionTypes
use intuit_argo_rollouts_dem.Rollout.Defaults.{get_replicas_or_default}
use intuit_argo_rollouts_dem.Status.Phase.{
  Phase, is_fully_promoted, is_bad_reason, degraded_by, restart_done, calculate_rollout_phase,
  strategy_phase, phase_by_counts, or_phase, paused_by,
}

-- A condition that does not degrade the rollout.
abbrev pub IsHarmless : RolloutCondition → Type 0
IsHarmless c =
    (str_eq c.kind ConditionTypes.invalid_spec ≡ false) × (is_bad_reason c.reason ≡ false)

-- A stable ReplicaSet that is there and the current one.
abbrev pub IsPromoted : RolloutStatus → Type 0
IsPromoted status = (str_eq status.stable_rs "" ≡ false) × (is_fully_promoted status ≡ true)

-- What the strategy asks for: a blue-green one that the active service selects the current
-- ReplicaSet, a canary without a traffic router that no older replica is left, and both that it is
-- stable.
abbrev pub IsSettled : Option BlueGreenStrategy → Option CanaryStrategy → RolloutStatus → Type 0
IsSettled (some b) c status =
    (str_eq status.blue_green.active_selector "" ≡ false)
    × (str_eq status.blue_green.active_selector status.current_pod_hash ≡ true)
    × IsPromoted status
IsSettled none none status = Unit
IsSettled none (some c) status =
    ((is_some c.traffic_routing ≡ false) → status.replicas ≤ℤ status.updated_replicas)
    × IsPromoted status

abbrev pub IsHealthy : RolloutSpec → RolloutStatus → Type 0
IsHealthy spec status =
    All IsHarmless status.conditions
    × (spec.paused ≡ false)
    × (status.pause_conditions ≡ [])
    × (restart_done spec.restart_at status.restarted_at ≡ true)
    × (get_replicas_or_default spec.replicas ≤ℤ status.updated_replicas)
    × (status.updated_replicas ≤ℤ status.available_replicas)
    × IsSettled spec.blue_green spec.canary status

degraded_by-none : (cs : List RolloutCondition) → All IsHarmless cs → degraded_by cs ≡ none
unfolding degraded_by
degraded_by-none [] h = refl
degraded_by-none (c ∷ cs) h = ground (arith, degraded_by-none cs)

degraded_by-ne-none :
    (cs : List RolloutCondition) (p : Phase) → p.0 ≡ healthy_phase → degraded_by cs ≢ some p
unfolding degraded_by
degraded_by-ne-none [] p h e = cc
degraded_by-ne-none (c ∷ cs) p h e = ground (arith, degraded_by-ne-none cs p h)

All-IsHarmless : (cs : List RolloutCondition) → degraded_by cs ≡ none → All IsHarmless cs
unfolding degraded_by
All-IsHarmless [] h = tt
All-IsHarmless (c ∷ cs) h = ground (arith, All-IsHarmless cs)

settled_of :
    (b : Option BlueGreenStrategy) (c : Option CanaryStrategy) (status : RolloutStatus)
    → IsSettled b c status
    → (strategy_phase b c status).0 ≡ healthy_phase
unfolding strategy_phase
settled_of (some b) c status h = ground arith
settled_of none none status h = refl
settled_of none (some c) status h = ground arith

of_IsSettled :
    (b : Option BlueGreenStrategy) (c : Option CanaryStrategy) (status : RolloutStatus)
    → (strategy_phase b c status).0 ≡ healthy_phase
    → IsSettled b c status
unfolding strategy_phase
of_IsSettled (some b) c status h = ground arith
of_IsSettled none none status h = tt
of_IsSettled none (some c) status h = ground arith

counts_of :
    (spec : RolloutSpec) (status : RolloutStatus)
    → (phase_by_counts spec status).0 ≡ healthy_phase
    → (restart_done spec.restart_at status.restarted_at ≡ true)
      × (get_replicas_or_default spec.replicas ≤ℤ status.updated_replicas)
      × (status.updated_replicas ≤ℤ status.available_replicas)
      × IsSettled spec.blue_green spec.canary status
unfolding phase_by_counts
counts_of spec status h =
    let settled = of_IsSettled spec.blue_green spec.canary status in
    elim (Bool-cases (restart_done spec.restart_at status.restarted_at)) [
      | inr no_restart ↦ absurd (ground arith)
      | inl done ↦
          elim (Bool-cases
            (ltb_ℤ status.updated_replicas (get_replicas_or_default spec.replicas))) [
              | inl few ↦ absurd (ground arith)
              | inr updated ↦
                  elim (Bool-cases (ltb_ℤ status.available_replicas status.updated_replicas)) [
                    | inl few ↦ absurd (ground arith)
                    | inr ready ↦
                        (done, ground arith, ground arith, settled (rw (done, updated, ready) at h))
                  ]
            ]
    ]

-- The first of the phases decides.
first_phase :
    (d : Option Phase) (is_paused : Bool) (cs : List PauseCondition) (p : Phase)
    → ((q : Phase) → d ≡ some q → q.0 ≢ healthy_phase)
    → (or_phase d
        (if is_paused then (paused_phase, "manually paused") else or_phase (paused_by cs) p)).0
      ≡ healthy_phase
    → (d ≡ none) × (is_paused ≡ false) × (cs ≡ []) × (p.0 ≡ healthy_phase)
unfolding paused_by
first_phase (some q) is_paused cs p k h = absurd (k q refl h)
first_phase none true cs p k h = cc
first_phase none false [] p k h = (refl, refl, refl, h)
first_phase none false (c ∷ cs) p k h = cc

module _ (spec : RolloutSpec) (status : RolloutStatus) where
  healthy_of : IsHealthy spec status → (calculate_rollout_phase spec status).0 ≡ healthy_phase
  unfolding calculate_rollout_phase
  healthy_of (a, b, c, d, e, f, g) =
      let settled = settled_of spec.blue_green spec.canary status g in
      simp (degraded_by-none status.conditions a, b, c, d) (ground arith)

  of_IsHealthy : (calculate_rollout_phase spec status).0 ≡ healthy_phase → IsHealthy spec status
  unfolding calculate_rollout_phase
  of_IsHealthy h =
      let (none_bad, b, c, p) =
        first_phase (degraded_by status.conditions) spec.paused status.pause_conditions
          (phase_by_counts spec status) (λ q e k. degraded_by-ne-none status.conditions q k e) h in
      let (d, e, f, g) = counts_of spec status p in
      (All-IsHarmless status.conditions none_bad, b, c, d, e, f, g)

  -- A rollout is healthy exactly if no condition says that its spec is invalid, that it was aborted or
  -- that it has timed out; it is not paused and has no pause condition; a requested restart is done;
  -- all replicas of the spec are updated, and as many are available; and its strategy is through: the
  -- current ReplicaSet is the stable one, and blue-green's active service selects it, or, for a canary
  -- without a traffic router, no older replica is left.
  pub calculate_rollout_phase-IsHealthy :
      ((calculate_rollout_phase spec status).0 ≡ healthy_phase) ↔ IsHealthy spec status
  calculate_rollout_phase-IsHealthy = (of_IsHealthy, healthy_of)
