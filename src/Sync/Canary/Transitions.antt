-- ===== src/Sync/Canary/Transitions.antt =====
-- The transitions of the step index in one reconciliation of a canary.
use intuit_argo_rollouts_dem.Prelude.{
  ◌≡◌, inl, inr, refl, sym, ap, ℕ, suc, ◌≤◌, Bool, false, ◌&&◌, Option, none, some, String, is_some,
  str_eq, if◌then◌else◌, Bool-cases,
}
use mathlib.Core.Option.{some-injective}
use mathlib.Core.Path.{subst}
use intuit_argo_rollouts_dem.Common.{Time, Library}
use intuit_argo_rollouts_dem.Rollout.{RolloutStatus}
use intuit_argo_rollouts_dem.Canary.Floats.{Float64}
use intuit_argo_rollouts_dem.Canary.Fenceposts.{OfPercent}
use intuit_argo_rollouts_dem.Canary.Steps.{index_or_zero, steps_of}
use intuit_argo_rollouts_dem.Pause.{is_aborted}
use intuit_argo_rollouts_dem.Context.{RolloutContext, the_rollout}
use intuit_argo_rollouts_dem.Sync.{should_full_promote, promote_stable}
use intuit_argo_rollouts_dem.Sync.Canary.Moves.{
  Situation, Moves, index_after, Moves-bound, restart-Moves, last_step_index-Moves, abort-Moves,
  step-Moves,
}
use intuit_argo_rollouts_dem.Sync.Canary.{
  pod_template_or_steps_changed, canary_base, step_count, restarted, aborted_status, skips_steps,
  unskipped, next_index, stepped, continued, next_canary_status, sync_rollout_status_canary,
}
use intuit_argo_rollouts_dem.Sync.Canary.Indexes.{
  index_of, returns_with, promoted-eq, completed_current_canary_step-lt, restarted-index,
  promote_stable-index, stepped-index, aborted_status-index, unskipped-rollout, next_index-index,
  canary_base-index, canary_base-stable, step_count_of, index_of_rollout, completes, finish-status,
}

module _ (lib : Library) (fl : Float64) (of_percent : OfPercent) (now : Time) where
  -- The situation of a context whose template and steps have not changed.
  abbrev unchanged :
      RolloutContext → RolloutStatus → (skips returns : Bool) → Option String → Situation
  unchanged d status skips returns reason = record {
    changed = false;
    returns = returns;
    skips = skips;
    promotes = is_some reason;
    aborted = is_aborted d.pause;
    is_stable = str_eq status.stable_rs status.current_pod_hash;
    completed = completes lib fl of_percent now d;
  }

  module _ (d e : RolloutContext) (status s : RolloutStatus) (index : Option ℕ)
      (skips returns : Bool) where
    -- Of the part after the check for changes.
    continued-Moves :
        (reason : Option String)
        → status.current_step_index ≡ none
        → index ≡ index_after skips (step_count d) (index_of d)
        → continued lib fl of_percent now d index status reason ≡ some (e, s)
        → Moves
            (unchanged d status skips returns reason)
            (step_count d)
            (index_of d)
            s.current_step_index
    unfolding continued
    continued-Moves (some r) u k h =
        let (ok, same_context, same_status) =
          promoted-eq (promote_stable d status).0 e (promote_stable d status).1 s
            (promote_stable d status).2 h in
        rw (sym (ap (λ t. t.current_step_index) same_status), promote_stable-index d status, u)
          (last_step_index-Moves (unchanged d status skips returns (some r)) (index_of d)
            (the_rollout d).spec.canary refl refl)
    continued-Moves none u k h =
        let both =
          some-injective
            (if is_aborted d.pause
              then (d, aborted_status d status)
              else stepped lib fl of_percent now d index status)
            (e, s) h in
        elim (Bool-cases (is_aborted d.pause)) [
          | inl a ↦
              rw
                (
                  sym (ap (λ p. p.1.current_step_index) (rw a at both)),
                  aborted_status-index lib fl of_percent now d status u,
                )
                (abort-Moves (unchanged d status skips returns none) (index_of d) (step_count d)
                  (refl, refl, a))
          | inr a ↦
              rw
                (
                  sym (ap (λ p. p.1.current_step_index) (rw a at both)),
                  stepped-index lib fl of_percent now d index status,
                  k,
                )
                (step-Moves (unchanged d status skips returns none) (index_of d) (step_count d)
                  (refl, refl, a) (completed_current_canary_step-lt lib fl of_percent now d))
        ]

  -- What the reconciliation goes by.
  abbrev pub situation_of : RolloutContext → Situation
  situation_of c = record {
    changed = pod_template_or_steps_changed c;
    returns = returns_with c c.new_rs;
    skips = skips_steps c;
    promotes = is_some (should_full_promote (unskipped c) (canary_base c));
    aborted = is_aborted (unskipped c).pause;
    is_stable = str_eq (the_rollout c).status.stable_rs (canary_base c).current_pod_hash;
    completed = completes lib fl of_percent now (unskipped c);
  }

  -- Of the status before its conditions.
  next_canary_status-Moves :
      (c e : RolloutContext) (s : RolloutStatus)
      → c.new_status.current_step_index ≡ none
      → next_canary_status lib fl of_percent now c ≡ some (e, s)
      → Moves (situation_of c) (step_count c) (index_of c) s.current_step_index
  unfolding next_canary_status
  next_canary_status-Moves c e s u h = elim (Bool-cases (pod_template_or_steps_changed c)) [
    | inl y ↦
        rw
          (
            sym (
                ap (λ p. p.1.current_step_index) (some-injective (restarted c) (e, s) (rw y at h))),
            restarted-index c,
          )
          (restart-Moves (situation_of c) (index_of c) (steps_of (the_rollout c).spec.canary) y)
    | inr n ↦
        let reason = should_full_promote (unskipped c) (canary_base c) in
        let before =
          unchanged (unskipped c) (canary_base c) (skips_steps c) (returns_with c c.new_rs)
            reason in
        rw n (
          subst
            (λ st.
              Moves (record before { is_stable = str_eq st (canary_base c).current_pod_hash })
                (step_count c) (index_of c) s.current_step_index)
            (canary_base-stable lib fl of_percent now c)
            (subst
              (λ ro.
                Moves
                  (unchanged (unskipped c) (canary_base c) (skips_steps c) (returns_with c c.new_rs)
                    reason)
                  (step_count_of lib fl of_percent now ro)
                  (index_of_rollout lib fl of_percent now ro) s.current_step_index)
              (unskipped-rollout lib fl of_percent now c)
              (continued-Moves (unskipped c) e (canary_base c) s (next_index c) (skips_steps c)
                (returns_with c c.new_rs) reason (canary_base-index lib fl of_percent now c u)
                (subst
                  (λ ro.
                    next_index c
                    ≡ index_after (skips_steps c) (step_count_of lib fl of_percent now ro)
                        (index_of_rollout lib fl of_percent now ro))
                  (sym (unskipped-rollout lib fl of_percent now c))
                  (next_index-index lib fl of_percent now c))
                (rw n at h))))
  ]

  -- In one reconciliation of a canary the step index moves in one of these ways. With no steps
  -- there is none. Where the template or the steps have changed, it goes to the end if the new
  -- ReplicaSet is the stable one, or is active and in the rollback window, and to the start if not.
  -- Otherwise it goes to the end at a promotion; and otherwise, at an abort, to the end if the
  -- current ReplicaSet is the stable one and to the start if not. Otherwise it goes to the end
  -- where the steps are skipped and the step is not completed, stays where neither is so, goes up
  -- by one where only the step is completed, and goes one past the end where both are so. The
  -- reconciliation starts with no index in the new status.
  pub sync_rollout_status_canary-Moves :
      (c : RolloutContext) (s : RolloutStatus)
      → c.new_status.current_step_index ≡ none
      → sync_rollout_status_canary lib fl of_percent now c ≡ some s
      → Moves (situation_of c) (step_count c) (index_of c) s.current_step_index
  unfolding sync_rollout_status_canary
  sync_rollout_status_canary-Moves c s u h =
      let (e, t, k, same) =
        finish-status lib fl of_percent now s (next_canary_status lib fl of_percent now c) h in
      rw (ap (λ r. r.current_step_index) same) (next_canary_status-Moves c e t u k)

  -- The step index that is sent is at most the number of steps, where the one before is; only where
  -- the steps are skipped while the current step is completed it is one more. The reconciliation
  -- starts with no index in the new status.
  pub sync_rollout_status_canary_bound :
      (c : RolloutContext) (s : RolloutStatus)
      → c.new_status.current_step_index ≡ none
      → index_of c ≤ step_count c
      → sync_rollout_status_canary lib fl of_percent now c ≡ some s
      → index_or_zero s.current_step_index ≤ (
          if skips_steps c && completes lib fl of_percent now (unskipped c)
          then suc (step_count c)
          else step_count c)
  sync_rollout_status_canary_bound c s u b h =
      Moves-bound (situation_of c) (step_count c) (index_of c) s.current_step_index b
        (sync_rollout_status_canary-Moves c s u h)
