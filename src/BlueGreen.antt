-- ===== src/BlueGreen.antt =====
-- rollout/bluegreen.go: the pause of a blue-green rollout, its check point and its status, and
-- NewRSNewReplicas of utils/replicaset/replicaset.go. The active and the preview service are the
-- labels of their selectors, if there are any.
pub mod Promotion
mod Examples
use intuit_argo_rollouts_dem.Prelude.{
  String, Bool, true, false, not, ◌&&◌, ◌||◌, Option, none, some, List, [], ◌∷◌, ℤ, pos, eqb_ℤ,
  ltb_ℤ, str_eq, is_some, if◌then◌else◌,
}
use intuit_argo_rollouts_dem.Common.{Time, Library}
use intuit_argo_rollouts_dem.Rollout.{
  Rollout, RolloutStatus, CanaryStrategy, BlueGreenStrategy, PauseCondition, TrafficWeights,
  inconclusive_analysis, blue_green_pause, BlueGreenStatus,
}
use intuit_argo_rollouts_dem.Rollout.Defaults.{get_replicas_or_default}
use intuit_argo_rollouts_dem.Canary.Types.{ReplicaSet}
use intuit_argo_rollouts_dem.Canary.Floats.{Float64}
use intuit_argo_rollouts_dem.Canary.Fenceposts.{OfPercent}
use intuit_argo_rollouts_dem.Canary.ReplicaSets.{
  get_available_replica_count_for_replica_sets, get_other_rss,
}
use intuit_argo_rollouts_dem.Canary.Basic.{calculate_replica_counts_for_basic_canary}
use intuit_argo_rollouts_dem.Canary.Routed.{calculate_replica_counts_for_traffic_routed_canary}
use intuit_argo_rollouts_dem.Pause.{
  PauseContext, add_pause_condition, remove_pause_condition, get_pause_condition,
  completed_blue_green_pause, needs_blue_green_controller_pause,
}
use intuit_argo_rollouts_dem.Context.{RolloutContext, the_rollout, pointers}
use intuit_argo_rollouts_dem.Sync.{
  has_scale_down_deadline, get_actual_replica_count_for_replica_sets, calculate_base_status,
  reset_rollout_status, is_rollback_within_window, cleared, is_successful, should_full_promote,
  promote_stable,
}
use intuit_argo_rollouts_dem.Sync.Conditions.{
  is_paused, get_replica_set_by_template_hash, calculate_rollout_conditions,
}
use intuit_argo_rollouts_dem.Sync.Canary.{check_pod_spec_change, persisted}

-- The loop of GetStableRS.
first_with_hash : String → List ReplicaSet → Option ReplicaSet
first_with_hash hash [] = none
first_with_hash hash (rs ∷ rss) =
    if str_eq rs.pod_hash hash then some rs else first_with_hash hash rss

has_hash : String → Option ReplicaSet → Bool
has_hash hash none = false
has_hash hash (some rs) = str_eq rs.pod_hash hash

unfoldable pub get_stable_rs : Rollout → Option ReplicaSet → List ReplicaSet → Option ReplicaSet
unfolding first_with_hash has_hash
get_stable_rs ro new_rs rss =
    let stable = ro.status.stable_rs in
    if str_eq stable ""
    then none
    else (if has_hash stable new_rs then new_rs else first_with_hash stable rss)

-- Whether the active set is there and is not the new one.
is_other : ReplicaSet → Option ReplicaSet → Bool
is_other new none = false
is_other new (some rs) = not (str_eq rs.name new.name)

preview_or_all : Rollout → List ReplicaSet → ReplicaSet → (desired : ℤ) → Option ℤ → ℤ
unfolding is_other
preview_or_all ro all_rss new desired none = desired
preview_or_all ro all_rss new desired (some preview) =
    let status = ro.status in
    if not
      (is_other new (get_replica_set_by_template_hash all_rss status.blue_green.active_selector))
    then desired
    else (if status.promote_full
        then desired
        else (if not (str_eq new.pod_hash status.current_pod_hash)
            then preview
            else (if not (is_paused ro) && status.blue_green.scale_up_preview_check_point
                then desired
                else preview)))

module _ (fl : Float64) (of_percent : OfPercent) where
  canary_replicas :
      Rollout → List ReplicaSet → ReplicaSet → CanaryStrategy → Option TrafficWeights → ℤ
  canary_replicas ro all_rss new strategy weights =
      let stable = get_stable_rs ro (some new) all_rss in
      let basic =
        calculate_replica_counts_for_basic_canary fl of_percent ro (some new) stable
          (get_other_rss (some new) stable (pointers all_rss)) in
      let routed = calculate_replica_counts_for_traffic_routed_canary fl ro weights in
      if is_some strategy.traffic_routing then routed.0 else basic.0

  strategy_replicas :
      Rollout
      → List ReplicaSet
      → ReplicaSet
      → Option TrafficWeights
      → Option BlueGreenStrategy
      → Option CanaryStrategy
      → Option ℤ
  unfolding preview_or_all canary_replicas
  strategy_replicas ro all_rss new weights (some b) canary = some (
      preview_or_all ro all_rss new (get_replicas_or_default ro.spec.replicas)
        b.preview_replica_count)
  strategy_replicas ro all_rss new weights none (some c) =
      some (canary_replicas ro all_rss new c weights)
  strategy_replicas ro all_rss new weights none none = none

  -- Nothing is an error.
  unfoldable pub new_rs_new_replicas :
      Rollout → List ReplicaSet → ReplicaSet → Option TrafficWeights → Option ℤ
  unfolding strategy_replicas
  new_rs_new_replicas ro all_rss new weights =
      strategy_replicas ro all_rss new weights ro.spec.blue_green ro.spec.canary

  ready_at : ReplicaSet → Option ℤ → Bool
  ready_at new none = false
  ready_at new (some count) = eqb_ℤ new.replicas count && eqb_ℤ new.available_replicas count

  unfoldable pub ready_for_pause : Rollout → ReplicaSet → List ReplicaSet → Bool
  unfolding ready_at
  ready_for_pause ro new all_rss = ready_at new (new_rs_new_replicas ro all_rss new none)

-- Whether progress is halted.
unfoldable pub halt_progress : Rollout → Bool
halt_progress ro = ro.spec.paused || is_some (get_pause_condition ro inconclusive_analysis)

pre_promoted : RolloutContext → Option BlueGreenStrategy → Bool
pre_promoted c none = true
pre_promoted c (some b) =
    not (is_some b.pre_promotion_analysis) || is_successful c.pre_promotion_run

unfoldable pub completed_pre_promotion_analysis : RolloutContext → Bool
unfolding pre_promoted
completed_pre_promotion_analysis c = pre_promoted c (the_rollout c).spec.blue_green

abbrev label_is : String → Option String → Bool
label_is hash none = false
label_is hash (some label) = str_eq label hash

unfoldable pub is_blue_green_fast_tracked : Rollout → ReplicaSet → (active : Option String) → Bool
is_blue_green_fast_tracked ro new active =
    has_scale_down_deadline (some new)
    || ro.status.promote_full
    || not (is_some active)
    || label_is new.pod_hash active

-- The pause context, and what checkEnqueueRolloutDuringWait is called with: a start and seconds.
abbrev pub Pausing : Type 0
Pausing = PauseContext × Option (Time × ℤ)

abbrev resumed : PauseContext → Pausing
resumed p = (remove_pause_condition blue_green_pause p, none)

at_condition : Time → PauseContext → BlueGreenStrategy → Option PauseCondition → Pausing
at_condition now p b none =
    (if p.rollout.status.controller_pause then p else add_pause_condition blue_green_pause p, none)
at_condition now p b (some cond) = if completed_blue_green_pause now p b then resumed p else (
  p,
  if ltb_ℤ (pos 0) b.auto_promotion_seconds
      then some (cond.start_time, b.auto_promotion_seconds)
      else none,
)

module _ (fl : Float64) (of_percent : OfPercent) (now : Time) where
  unfoldable pub reconcile_blue_green_pause :
      RolloutContext → BlueGreenStrategy → ReplicaSet → (active : Option String) → Pausing
  unfolding at_condition
  reconcile_blue_green_pause c b new active =
      let ro = the_rollout c in
      if ro.status.abort || not (ready_for_pause fl of_percent ro new c.all_rss) || halt_progress ro
      then (c.pause, none)
      else (if is_blue_green_fast_tracked ro new active
            || label_is new.pod_hash active
            || ro.status.blue_green.scale_up_preview_check_point
            || not (needs_blue_green_controller_pause b)
          then resumed c.pause
          else (if not (completed_pre_promotion_analysis c)
              then (c.pause, none)
              else at_condition now c.pause b (get_pause_condition ro blue_green_pause)))

  check_point : RolloutContext → BlueGreenStrategy → Option ℤ → Bool
  check_point c b none = false
  check_point c b (some preview) =
      (the_rollout c).status.blue_green.scale_up_preview_check_point
      || (completed_pre_promotion_analysis c
          && completed_blue_green_pause now c.pause b
          && eqb_ℤ preview (get_available_replica_count_for_replica_sets (c.new_rs ∷ [])))

  unfoldable pub calculate_scale_up_preview_check_point : RolloutContext → BlueGreenStrategy → Bool
  unfolding check_point
  calculate_scale_up_preview_check_point c b = check_point c b b.preview_replica_count

  abbrev label_or_empty : Option String → String
  label_or_empty none = ""
  label_or_empty (some label) = label

  -- The counts of the active set, if there is one.
  active_counts : RolloutContext → RolloutStatus → Option ReplicaSet → RolloutStatus
  active_counts c status none = record status {
    hpa_replicas = get_actual_replica_count_for_replica_sets (pointers c.all_rss);
    available_replicas = get_available_replica_count_for_replica_sets (pointers c.all_rss);
  }
  active_counts c status (some rs) = record status {
    hpa_replicas = rs.current_replicas;
    available_replicas = rs.available_replicas;
    ready_replicas = rs.ready_replicas;
  }

  -- The promotion, whose error the source drops, or the check point.
  promoted_or_checked :
      RolloutContext
      → BlueGreenStrategy
      → RolloutStatus
      → Option String
      → RolloutContext × RolloutStatus
  promoted_or_checked c b status (some reason) = let r = promote_stable c status in (r.0, r.1)
  promoted_or_checked c b status none = (
    c,
    record status {
      blue_green = record status.blue_green {
        scale_up_preview_check_point = calculate_scale_up_preview_check_point c b;
      };
    },
  )

  -- The reset at a change of the template, and the pauses cleared where they are skipped.
  unfoldable pub blue_green_start : RolloutContext → RolloutContext × RolloutStatus
  blue_green_start c =
      let base = record (calculate_base_status c) {
        stable_rs = (the_rollout c).status.stable_rs;
      } in
      let (next, status) =
        if◌then◌else◌ {A = RolloutContext × RolloutStatus} (check_pod_spec_change c)
          (reset_rollout_status c base) (c, base) in
      (
        if (the_rollout c).status.promote_full || is_rollback_within_window c
            then cleared next
            else next,
        status,
      )

  -- The new status before its conditions.
  unfoldable pub next_blue_green_status :
      RolloutContext
      → BlueGreenStrategy
      → (preview active : Option String) → RolloutContext × RolloutStatus
  unfolding active_counts promoted_or_checked
  next_blue_green_status c b preview active =
      let (next, status) = blue_green_start c in
      let selected = record status {
        blue_green = record status.blue_green {
          preview_selector = label_or_empty preview;
          active_selector = label_or_empty active;
        };
      } in
      let (promoted, checked) =
        promoted_or_checked next b selected (should_full_promote next selected) in
      (
        promoted,
        active_counts c checked
            (get_replica_set_by_template_hash c.all_rss checked.blue_green.active_selector),
      )

  unfoldable pub sync_rollout_status_blue_green :
      Library
      → RolloutContext
      → BlueGreenStrategy
      → (preview active : Option String) → RolloutStatus
  sync_rollout_status_blue_green lib c b preview active =
      let (next, status) = next_blue_green_status c b preview active in
      let (last, with_conditions) = calculate_rollout_conditions now lib next status in
      persisted lib fl of_percent now last with_conditions
