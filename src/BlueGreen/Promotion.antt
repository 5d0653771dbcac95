-- ===== src/BlueGreen/Promotion.antt =====
-- When the stable ReplicaSet of a blue-green rollout changes.
use intuit_argo_rollouts_dem.Prelude.{
  ◌≡◌, inl, inr, refl, sym, ap, ◌∙◌, Bool, true, not, ◌&&◌, ◌||◌, Option, none, some, String, arith,
  is_some, str_eq,
}
use mathlib.Core.Path.{subst}
use mathlib.Core.Option.{some-injective}
use intuit_argo_rollouts_dem.Common.{Time, Library}
use intuit_argo_rollouts_dem.Rollout.{RolloutStatus, BlueGreenStrategy}
use intuit_argo_rollouts_dem.Canary.Types.{ReplicaSet}
use intuit_argo_rollouts_dem.Canary.Floats.{Float64}
use intuit_argo_rollouts_dem.Canary.Fenceposts.{OfPercent}
use intuit_argo_rollouts_dem.Context.{RolloutContext, the_rollout, are_targets_verified}
use intuit_argo_rollouts_dem.Pause.{clear_pause_conditions, remove_abort}
use intuit_argo_rollouts_dem.Sync.{should_full_promote, reset_rollout_status, calculate_base_status}
use intuit_argo_rollouts_dem.Sync.Reason.{should_full_promote-blue_green}
use intuit_argo_rollouts_dem.Sync.Conditions.{get_replica_set_by_template_hash}
use intuit_argo_rollouts_dem.Sync.Canary.{finish}
use intuit_argo_rollouts_dem.Sync.Canary.Indexes.{finish-status}
use intuit_argo_rollouts_dem.Sync.Canary.Promotion.{IsKept, IsKept-core, promote_stable-stable}
use intuit_argo_rollouts_dem.BlueGreen.{
  label_or_empty, active_counts, promoted_or_checked, blue_green_start, next_blue_green_status,
  sync_rollout_status_blue_green,
}

-- Whether a rollout may be promoted, by its stable set, the active selector, the current hash and
-- the targets.
abbrev may_promote : Option ReplicaSet → (label hash : String) → Bool → Bool
may_promote o label hash verified =
    not (is_some o) || (str_eq label "" || (str_eq label hash && verified))

module _ (fl : Float64) (of_percent : OfPercent) (now : Time) where
  promoted_or_checked-IsKept :
      (c : RolloutContext) (b : BlueGreenStrategy) (status : RolloutStatus) (reason : Option String)
      → IsKept status.stable_rs
          (is_some reason)
          (promoted_or_checked fl of_percent now c b status reason).1
  unfolding promoted_or_checked
  promoted_or_checked-IsKept c b status none = inl refl
  promoted_or_checked-IsKept c b status (some r) = inr (promote_stable-stable c status, refl)

  active_counts-IsKept :
      (c : RolloutContext) (status : RolloutStatus) (o : Option ReplicaSet) (stable : String)
      (p : Bool)
      → IsKept stable p status
      → IsKept stable p (active_counts fl of_percent now c status o)
  unfolding active_counts
  active_counts-IsKept c status none stable p (inl h) = inl h
  active_counts-IsKept c status none stable p (inr h) = inr h
  active_counts-IsKept c status (some rs) stable p (inl h) = inl h
  active_counts-IsKept c status (some rs) stable p (inr h) = inr h

  -- The start keeps the rollout and the stable set.
  blue_green_start-stable :
      (c : RolloutContext)
      → (blue_green_start fl of_percent now c).1.stable_rs ≡ (the_rollout c).status.stable_rs
  unfolding blue_green_start reset_rollout_status
  blue_green_start-stable c = ground arith

  blue_green_start-rollout :
      (c : RolloutContext) → the_rollout (blue_green_start fl of_percent now c).0 ≡ the_rollout c
  unfolding blue_green_start reset_rollout_status clear_pause_conditions remove_abort
  blue_green_start-rollout c = ground arith

  blue_green_start-hash :
      (c : RolloutContext)
      → (blue_green_start fl of_percent now c).1.current_pod_hash
        ≡ (calculate_base_status c).current_pod_hash
  unfolding blue_green_start reset_rollout_status
  blue_green_start-hash c = ground arith

  blue_green_start-set :
      (c : RolloutContext) → (blue_green_start fl of_percent now c).0.stable_rs ≡ c.stable_rs
  unfolding blue_green_start reset_rollout_status
  blue_green_start-set c = ground arith

  blue_green_start-verified :
      (c : RolloutContext)
      → are_targets_verified (blue_green_start fl of_percent now c).0 ≡ are_targets_verified c
  unfolding blue_green_start reset_rollout_status are_targets_verified
  blue_green_start-verified c = ground arith

  IsKept-map :
      (a : String) (p q : Bool) (s : RolloutStatus)
      → (p ≡ true → q ≡ true)
      → IsKept a p s
      → IsKept a q s
  IsKept-map a p q s h (inl e) = inl e
  IsKept-map a p q s h (inr (e, f)) = inr (e, h f)

  -- The active service selects nothing or the current ReplicaSet, whose targets are verified.
  abbrev pub cuts_over : RolloutContext → (active : Option String) → Bool
  cuts_over c active =
      let label = label_or_empty fl of_percent now active in
      str_eq label ""
      || (str_eq label (calculate_base_status c).current_pod_hash && are_targets_verified c)

  next_blue_green_status-IsKept :
      (c : RolloutContext) (b : BlueGreenStrategy) (preview active : Option String)
      → (the_rollout c).spec.canary ≡ none
      → (the_rollout c).spec.blue_green ≡ some b
      → IsKept
          (the_rollout c).status.stable_rs
          (not (is_some c.stable_rs) || cuts_over c active)
          (next_blue_green_status fl of_percent now c b preview active).1
  unfolding next_blue_green_status
  next_blue_green_status-IsKept c b preview active e f =
      let start = blue_green_start fl of_percent now c in
      let selected = record start.1 {
        blue_green = record start.1.blue_green {
          preview_selector = label_or_empty fl of_percent now preview;
          active_selector = label_or_empty fl of_percent now active;
        };
      } in
      let same = blue_green_start-rollout c in
      let reason = should_full_promote start.0 selected in
      let promoted = promoted_or_checked-IsKept start.0 b selected reason in
      let label = label_or_empty fl of_percent now active in
      let state = promoted_or_checked fl of_percent now start.0 b selected reason in
      let allowed : is_some reason ≡ true → not (is_some c.stable_rs) || cuts_over c active ≡ true =
        λ h.
          ap
            (λ o.
              may_promote o label (calculate_base_status c).current_pod_hash
                (are_targets_verified c))
            (sym (blue_green_start-set c))
          ∙ ap (λ k. may_promote start.0.stable_rs label k (are_targets_verified c))
              (sym (blue_green_start-hash c))
          ∙ ap (λ v. may_promote start.0.stable_rs label start.1.current_pod_hash v)
              (sym (blue_green_start-verified c))
          ∙ should_full_promote-blue_green start.0 selected b (ap (λ ro. ro.spec.canary) same ∙ e)
              (ap (λ ro. ro.spec.blue_green) same ∙ f) h in
      active_counts-IsKept c state.1
        (get_replica_set_by_template_hash c.all_rss state.1.blue_green.active_selector)
        (the_rollout c).status.stable_rs (not (is_some c.stable_rs) || cuts_over c active)
        (IsKept-map (the_rollout c).status.stable_rs (is_some reason)
          (not (is_some c.stable_rs) || cuts_over c active) state.1 allowed
          (IsKept-core start.1.stable_rs (the_rollout c).status.stable_rs (is_some reason)
            (is_some reason) state.1 state.1 refl (blue_green_start-stable c) refl promoted))

  -- Of a rollout with a blue-green strategy alone: the stable ReplicaSet that is sent is that of
  -- before, or the current one; the latter only where there was no stable ReplicaSet, the active
  -- service selects none yet, or it selects the current one and its targets are verified.
  pub sync_rollout_status_blue_green-stable :
      (lib : Library) (c : RolloutContext) (b : BlueGreenStrategy) (preview active : Option String)
      → (the_rollout c).spec.canary ≡ none
      → (the_rollout c).spec.blue_green ≡ some b
      → IsKept
          (the_rollout c).status.stable_rs
          (not (is_some c.stable_rs) || cuts_over c active)
          (sync_rollout_status_blue_green fl of_percent now lib c b preview active)
  unfolding sync_rollout_status_blue_green
  sync_rollout_status_blue_green-stable lib c b preview active e f =
      let p = not (is_some c.stable_rs) || cuts_over c active in
      let s = sync_rollout_status_blue_green fl of_percent now lib c b preview active in
      let next = next_blue_green_status fl of_percent now c b preview active in
      let (d, t, k, same) =
        finish-status lib fl of_percent now s (some next) (unfold finish in refl) in
      IsKept-core (the_rollout c).status.stable_rs (the_rollout c).status.stable_rs p p s t same
        refl refl
        (subst (λ r. IsKept (the_rollout c).status.stable_rs p r)
          (ap (λ r. r.1) (some-injective next (d, t) k))
          (next_blue_green_status-IsKept c b preview active e f))
