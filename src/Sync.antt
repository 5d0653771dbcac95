-- ===== src/Sync.antt =====
-- rollout/sync.go: the status that all strategies share, its reset at a new update, when a rollout is
-- promoted in full, and the promotion. Events and logs are left out.
pub mod Reason
pub mod Conditions
pub mod Canary
pub mod Sample
mod Examples
use intuit_argo_rollouts_dem.Prelude.{
  String, Bool, true, false, not, ◌&&◌, ◌||◌, ◌==◌, Option, none, some, List, [], ◌∷◌, ℕ, ℤ, pos,
  add32, eqb_ℤ, ltb_ℤ, ◌<>◌, show_int, str_eq, length, is_some, if◌then◌else◌,
}
use intuit_argo_rollouts_dem.Rollout.{
  Rollout, RolloutStatus, RolloutSpec, RolloutPhase, healthy_phase, CanaryStep, CanaryStrategy,
  BlueGreenStrategy, CanaryStatus, BlueGreenStatus, PingPongType, no_ping_pong, ping, pong,
}
use intuit_argo_rollouts_dem.Rollout.ConditionTypes
use intuit_argo_rollouts_dem.Rollout.Defaults.{get_replicas_or_default}
use intuit_argo_rollouts_dem.Analysis.Types.{AnalysisPhase, successful}
use intuit_argo_rollouts_dem.Canary.Types.{ReplicaSet}
use intuit_argo_rollouts_dem.Canary.ReplicaSets.{sum_of}
use intuit_argo_rollouts_dem.Canary.Steps.{get_current_canary_step, steps_of}
use intuit_argo_rollouts_dem.Pause.{PauseContext, is_aborted, clear_pause_conditions, remove_abort}
use intuit_argo_rollouts_dem.Status.Conditions.{get_rollout_condition, remove_rollout_condition}
use intuit_argo_rollouts_dem.Context.{RolloutContext, the_rollout, pointers, are_targets_verified}

unfoldable pub get_actual_replica_count_for_replica_sets : List (Option ReplicaSet) → ℤ
get_actual_replica_count_for_replica_sets rss = sum_of (λ rs. rs.current_replicas) (pos 0) rss

unfoldable pub get_ready_replica_count_for_replica_sets : List (Option ReplicaSet) → ℤ
get_ready_replica_count_for_replica_sets rss = sum_of (λ rs. rs.ready_replicas) (pos 0) rss

unfoldable pub has_scale_down_deadline : Option ReplicaSet → Bool
has_scale_down_deadline none = false
has_scale_down_deadline (some rs) = elim rs.scale_down_deadline [
  | none ↦ false
  | some t ↦ not (str_eq t "")
]

has_some : List ReplicaSet → Bool
has_some [] = false
has_some (rs ∷ rss) = true

unfoldable pub is_active : RolloutContext → Option ReplicaSet → Bool
unfolding has_some
is_active c none = false
is_active c (some rs) = has_some (c.filter_active (rs ∷ []))

-- The label of the new set, and where there is none what the hash of the template would be.
current_pod_hash_of : String → Option ReplicaSet → String
current_pod_hash_of template_hash none = template_hash
current_pod_hash_of template_hash (some rs) = rs.pod_hash

unfoldable pub calculate_base_status : RolloutContext → RolloutStatus
unfolding current_pod_hash_of
calculate_base_status c =
    let previous = (the_rollout c).status in
    let hash = current_pod_hash_of c.template_hash c.new_rs in
    record c.new_status {
      current_pod_hash = hash;
      replicas = get_actual_replica_count_for_replica_sets (pointers c.all_rss);
      updated_replicas = get_actual_replica_count_for_replica_sets (c.new_rs ∷ []);
      ready_replicas = get_ready_replica_count_for_replica_sets (pointers c.all_rss);
      conditions =
          (if c.is_valid && is_some (get_rollout_condition previous ConditionTypes.invalid_spec)
            then remove_rollout_condition previous ConditionTypes.invalid_spec
            else previous).conditions;
      promote_full = not (str_eq hash c.new_status.stable_rs) && previous.promote_full;
    }

-- No index without steps.
abbrev pub first_index : List CanaryStep → Option ℕ
first_index [] = none
first_index (s ∷ ss) = some 0

unfoldable pub reset_current_step_index : Rollout → Option ℕ
reset_current_step_index ro = first_index (steps_of ro.spec.canary)

-- The pause context without pauses and without an abort.
abbrev pub cleared : RolloutContext → RolloutContext
cleared c = record c { pause = remove_abort (clear_pause_conditions c.pause) }

-- `c.SetRestartedAt()` sets the status of the context, of which the new status is a copy.
unfoldable pub reset_rollout_status :
    RolloutContext → RolloutStatus → RolloutContext × RolloutStatus
reset_rollout_status c status = (
  record (cleared c) {
    new_status = record c.new_status { restarted_at = (the_rollout c).spec.restart_at };
  },
  record status {
    promote_full = false;
    blue_green = record status.blue_green {
      pre_promotion_analysis_run_status = none;
      post_promotion_analysis_run_status = none;
      scale_up_preview_check_point = false;
    };
    canary = record status.canary {
      current_step_analysis_run_status = none;
      current_background_analysis_run_status = none;
      step_plugin_statuses = [];
    };
    current_step_index = reset_current_step_index (the_rollout c);
  },
)

-- The loop that counts the sets between the two, which belong to no experiment.
unfoldable pub window_size : (new stable : ReplicaSet) → ℤ → List ReplicaSet → ℤ
window_size new stable size [] = size
window_size new stable size (rs ∷ rss) =
    window_size new stable
      (if not (str_eq rs.experiment_name "")
        then size
        else (if ltb_ℤ rs.created stable.created && ltb_ℤ new.created rs.created
            then add32 size (pos 1)
            else size))
      rss

within_window : Option ℤ → (size : ℤ) → Bool
within_window none size = false
within_window (some revisions) size = ltb_ℤ (pos 0) revisions && ltb_ℤ size revisions

rollback_within : Option ℤ → List ReplicaSet → (new stable : Option ReplicaSet) → Bool
unfolding within_window
rollback_within window rss (some new) (some stable) =
    ltb_ℤ new.created stable.created && within_window window (window_size new stable (pos 0) rss)
rollback_within window rss _ _ = false

unfoldable pub is_rollback_within_window : RolloutContext → Bool
unfolding rollback_within
is_rollback_within_window c =
    rollback_within (the_rollout c).spec.rollback_window c.all_rss c.new_rs c.stable_rs

-- Whether the new set is there with the available replicas of the spec.
abbrev has_available : ℤ → Option ReplicaSet → Bool
has_available replicas none = false
has_available replicas (some rs) = eqb_ℤ rs.available_replicas replicas

abbrev completed_all_steps : ℕ → Option ℕ → Bool
completed_all_steps count index = count == 0 || elim index [ none ↦ false | some i ↦ i == count ]

abbrev pub is_successful : Option AnalysisPhase → Bool
is_successful none = false
is_successful (some successful) = true
is_successful (some _) = false

abbrev name_of : Option ReplicaSet → String
name_of none = ""
name_of (some rs) = rs.name

-- None where the reason is empty.
canary_promotion : RolloutContext → CanaryStrategy → Option String
canary_promotion c strategy =
    let ro = the_rollout c in
    let count = length strategy.steps in
    if is_aborted c.pause
    then none
    else (if not (has_available (get_replicas_or_default ro.spec.replicas) c.new_rs)
        then none
        else (if ro.status.promote_full
            then some "Full promotion requested"
            else (if is_rollback_within_window c
                then some "Rollback within window"
                else (if completed_all_steps count (get_current_canary_step ro).1
                    then some ("Completed all " <> show_int (pos count) <> " canary steps")
                    else none))))

blue_green_promotion : RolloutContext → RolloutStatus → BlueGreenStrategy → Option String
blue_green_promotion c status strategy =
    let ro = the_rollout c in
    if str_eq status.blue_green.active_selector ""
    then some "Initial deploy"
    else (if not (str_eq status.blue_green.active_selector status.current_pod_hash)
        then none
        else (if not (are_targets_verified c)
            then none
            else (if ro.status.promote_full
                then some "Full promotion requested"
                else (if is_rollback_within_window c
                    then some "Rollback within window"
                    else (if is_aborted c.pause
                        then none
                        else (if is_some strategy.post_promotion_analysis
                              && has_scale_down_deadline c.new_rs
                            then some
                                ("Rollback to '" <> name_of c.new_rs <> "' within scaleDownDelay")
                            else (if is_some strategy.post_promotion_analysis
                                  && not (is_successful c.post_promotion_run)
                                then none
                                else some "Completed blue-green update")))))))

strategy_promotion :
    RolloutContext
    → RolloutStatus
    → Option CanaryStrategy
    → Option BlueGreenStrategy
    → Option String
unfolding canary_promotion blue_green_promotion
strategy_promotion c status (some canary) b = canary_promotion c canary
strategy_promotion c status none (some b) = blue_green_promotion c status b
strategy_promotion c status none none = none

unfoldable pub should_full_promote : RolloutContext → RolloutStatus → Option String
unfolding strategy_promotion
should_full_promote c status =
    let spec = (the_rollout c).spec in
    if is_some c.stable_rs
    then strategy_promotion c status spec.canary spec.blue_green
    else some "Initial deploy"

abbrev pub is_healthy_phase : RolloutPhase → Bool
is_healthy_phase healthy_phase = true
is_healthy_phase _ = false

other_ping_pong : PingPongType → PingPongType
other_ping_pong ping = pong
other_ping_pong _ = ping

is_ping_pong_enabled : Option CanaryStrategy → Bool
is_ping_pong_enabled none = false
is_ping_pong_enabled (some s) = s.ping_pong

unfoldable pub last_step_index : Option CanaryStrategy → Option ℕ → Option ℕ
last_step_index none index = index
last_step_index (some s) index = if length s.steps == 0 then none else some (length s.steps)

-- The stable set, and which service it has, where it changes.
unfoldable pub switched : Rollout → RolloutStatus → RolloutStatus
unfolding other_ping_pong is_ping_pong_enabled
switched ro status =
    if str_eq status.stable_rs status.current_pod_hash then status else record status {
      stable_rs = status.current_pod_hash;
      canary = record status.canary {
        stable_ping_pong =
            if is_ping_pong_enabled ro.spec.canary
            then other_ping_pong ro.status.canary.stable_ping_pong
            else status.canary.stable_ping_pong;
      };
    }

-- The context, the status, and whether there is no error.
unfoldable pub promote_stable :
    RolloutContext → RolloutStatus → RolloutContext × RolloutStatus × Bool
unfolding switched last_step_index
promote_stable c status =
    let ro = the_rollout c in
    (
      cleared c,
      switched ro (record status {
        promote_full = false;
        blue_green = record status.blue_green { scale_up_preview_check_point = false };
        current_step_index = last_step_index ro.spec.canary status.current_step_index;
      }),
      if eqb_ℤ c.revision (pos 1)
            && is_healthy_phase ro.status.phase
            && ro.spec.scale_down_workload_on_success
          then c.scales_workload
          else true,
    )
