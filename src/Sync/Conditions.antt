-- ===== src/Sync/Conditions.antt =====
-- rollout/sync.go: calculateRolloutConditions, the conditions of the new status, in the order in
-- which the code updates them. Names in messages are quoted as `%q` quotes a name that needs no
-- escapes.
pub mod Keeps
pub mod Aborts
pub mod Outcome
use intuit_argo_rollouts_dem.Prelude.{
  String, Bool, true, false, not, ◌&&◌, ◌||◌, Option, none, some, List, [], ◌∷◌, ◌++◌, ℤ, pos,
  eqb_ℤ, ltb_ℤ, ◌<>◌, show_int, str_eq, is_some, int32, if◌then◌else◌,
}
use intuit_argo_rollouts_dem.Common.{Time, Library}
use intuit_argo_rollouts_dem.Rollout.{
  Rollout, RolloutStatus, RolloutCondition, RolloutConditionType, ConditionStatus, condition_true,
  condition_false, condition_unknown, CanaryStep, PauseCondition, CanaryStrategy, BlueGreenStrategy,
}
use intuit_argo_rollouts_dem.Rollout.ConditionTypes
use intuit_argo_rollouts_dem.Rollout.Defaults.{get_replicas_or_default}
use intuit_argo_rollouts_dem.Canary.Types.{ReplicaSet, ReplicaSetCondition}
use intuit_argo_rollouts_dem.Canary.ReplicaSets.{
  get_available_replica_count_for_replica_sets, get_other_rss,
}
use intuit_argo_rollouts_dem.Canary.Steps.{get_current_canary_step}
use intuit_argo_rollouts_dem.Pause.{PauseContext, is_aborted, add_abort}
use intuit_argo_rollouts_dem.Status.Reasons.{
  available_reason, not_available_message, available_message, replica_set_updated_reason,
  rollout_completed_reason, rollout_healthy_reason, rollout_healthy_message,
  rollout_not_healthy_message, rollout_aborted_reason, replica_set_not_available_reason,
  new_rs_available_reason, timed_out_reason, rollout_aborted_message,
}
use intuit_argo_rollouts_dem.Status.Conditions.{
  same_status, new_rollout_condition, get_rollout_condition, remove_rollout_condition,
  set_rollout_condition,
}
use intuit_argo_rollouts_dem.Status.Progress.{
  rollout_progressing, rollout_healthy, rollout_completed, rollout_timed_out,
}
use intuit_argo_rollouts_dem.Context.{RolloutContext, the_rollout, pointers}
use intuit_argo_rollouts_dem.Sync.{has_scale_down_deadline}

abbrev set : RolloutStatus → RolloutCondition → RolloutStatus
set status condition = (set_rollout_condition status condition).0

abbrev pub is_nil : List PauseCondition → Bool
is_nil [] = true
is_nil (c ∷ cs) = false

abbrev pub is_paused : Rollout → Bool
is_paused ro = not (is_nil ro.status.pause_conditions) || ro.spec.paused

has_status : ConditionStatus → Option RolloutCondition → Bool
has_status status none = false
has_status status (some c) = same_status c.status status

is_indefinite : Option CanaryStep → Bool
is_indefinite none = false
is_indefinite (some step) = is_some step.experiment || is_some step.analysis || is_some step.pause

unfoldable pub is_indefinite_step : Rollout → Bool
unfolding is_indefinite has_status
is_indefinite_step ro =
    is_indefinite (get_current_canary_step ro).0
    || has_status condition_true (get_rollout_condition ro.status ConditionTypes.paused)

any_deadline : List (Option ReplicaSet) → Bool
any_deadline [] = false
any_deadline (rs ∷ rss) = has_scale_down_deadline rs || any_deadline rss

unfoldable pub is_waiting_for_replica_set_scale_down : RolloutContext → Bool
unfolding any_deadline
is_waiting_for_replica_set_scale_down c =
    any_deadline (get_other_rss c.new_rs c.stable_rs (pointers c.all_rss))

-- ReplicaSetToRolloutCondition.
unfoldable pub replica_set_to_rollout_condition : ReplicaSetCondition → RolloutCondition
replica_set_to_rollout_condition c = record {
  kind = c.kind;
  status = c.status;
  last_update_time = c.last_transition_time;
  last_transition_time = c.last_transition_time;
  reason = c.reason;
  message = c.message;
}

failures_of : List ReplicaSetCondition → List RolloutCondition
failures_of [] = []
failures_of (c ∷ cs) =
    let rest = failures_of cs in
    if str_eq c.kind "ReplicaFailure" then replica_set_to_rollout_condition c ∷ rest else rest

failures_of_all : List ReplicaSet → List RolloutCondition
unfolding failures_of
failures_of_all [] = []
failures_of_all (rs ∷ rss) = failures_of rs.conditions ++ failures_of_all rss

failures_of_new : Option ReplicaSet → List RolloutCondition
unfolding failures_of
failures_of_new none = []
failures_of_new (some rs) = failures_of rs.conditions

-- Those of the new set, if it has any.
first_failures : List RolloutCondition → List RolloutCondition → List RolloutCondition
first_failures [] all = all
first_failures (c ∷ cs) all = c ∷ cs

unfoldable pub get_replica_failures : List ReplicaSet → Option ReplicaSet → List RolloutCondition
unfolding failures_of_all failures_of_new first_failures
get_replica_failures all_rss new_rs =
    first_failures (failures_of_new new_rs) (failures_of_all all_rss)

-- The last set with the hash, of a list without nil pointers.
last_with_hash : Option ReplicaSet → String → List ReplicaSet → Option ReplicaSet
last_with_hash found hash [] = found
last_with_hash found hash (rs ∷ rss) =
    last_with_hash (if str_eq rs.pod_hash hash then some rs else found) hash rss

unfoldable pub get_replica_set_by_template_hash : List ReplicaSet → String → Option ReplicaSet
unfolding last_with_hash
get_replica_set_by_template_hash rss hash =
    if str_eq hash "" then none else last_with_hash none hash rss

with_quotes : String → String
with_quotes name = "\"" <> name <> "\""

-- The message on the new set, or without one on the rollout.
about : (suffix : String) → Rollout → Option ReplicaSet → String
unfolding with_quotes
about suffix ro none = "Rollout " <> with_quotes ro.name <> suffix
about suffix ro (some rs) = "ReplicaSet " <> with_quotes rs.name <> suffix

name_or_empty : Option ReplicaSet → String
name_or_empty none = ""
name_or_empty (some rs) = rs.name

module _ (now : Time) where
  -- The status, and whether it became unhealthy.
  healthy_condition : Rollout → RolloutStatus → RolloutStatus × Bool
  healthy_condition ro status =
      if not (is_paused ro) && rollout_healthy ro status
      then (
        set status (
            new_rollout_condition now ConditionTypes.healthy condition_true rollout_healthy_reason
              rollout_healthy_message),
        false,
      )
      else (if is_some (get_rollout_condition ro.status ConditionTypes.healthy)
          then set_rollout_condition status (
              new_rollout_condition now ConditionTypes.healthy condition_false
                rollout_healthy_reason rollout_not_healthy_message)
          else (status, false))

  abort_text : RolloutContext → String
  abort_text c =
      let text = rollout_aborted_message <> show_int c.revision in
      if str_eq c.pause.abort_message "" then text else text <> ": " <> c.pause.abort_message

  aborted_condition : RolloutContext → RolloutStatus → RolloutStatus
  unfolding abort_text
  aborted_condition c status =
      if is_aborted c.pause
      then set status (
          new_rollout_condition now ConditionTypes.progressing condition_false
            rollout_aborted_reason (abort_text c))
      else status

  -- `isHealthyRollout`, with the condition before.
  is_settled : RolloutStatus → Option RolloutCondition → Bool
  is_settled status none = false
  is_settled status (some current) =
      eqb_ℤ status.replicas status.available_replicas
      && str_eq current.reason new_rs_available_reason
      && not (str_eq current.kind ConditionTypes.progressing)

  available_condition_of : RolloutContext → RolloutCondition
  unfolding name_or_empty with_quotes
  available_condition_of c =
      new_rollout_condition now ConditionTypes.progressing condition_true new_rs_available_reason
        ("ReplicaSet " <> with_quotes (name_or_empty c.new_rs) <> " has successfully progressed.")

  progress_condition : RolloutContext → RolloutStatus → (became_unhealthy : Bool) → RolloutCondition
  unfolding about
  progress_condition c status became_unhealthy =
      if str_eq status.stable_rs status.current_pod_hash && became_unhealthy
      then new_rollout_condition now ConditionTypes.progressing condition_true
          replica_set_not_available_reason not_available_message
      else new_rollout_condition now ConditionTypes.progressing condition_true
          replica_set_updated_reason (about " is progressing." (the_rollout c) c.new_rs)

  -- The condition is put anew, with the transition time of a condition that was true before.
  set_progress : RolloutStatus → RolloutCondition → Option RolloutCondition → RolloutStatus
  set_progress status condition none = set status condition
  set_progress status condition (some current) =
      set (remove_rollout_condition status ConditionTypes.progressing) (
        if same_status current.status condition_true
        then record condition { last_transition_time = current.last_transition_time }
        else condition)

  timed_out : RolloutContext → RolloutStatus → RolloutContext × RolloutStatus
  unfolding about
  timed_out c status =
      let message = about " has timed out progressing." (the_rollout c) c.new_rs in
      let (next, changed) = set_rollout_condition status (
        new_rollout_condition now ConditionTypes.progressing condition_false timed_out_reason
          message) in
      (
        if (the_rollout c).spec.progress_deadline_abort && (changed || not (is_aborted c.pause))
            then record c { pause = add_abort message c.pause }
            else c,
        next,
      )

  progress :
      RolloutContext → RolloutStatus → (became_unhealthy : Bool) → RolloutContext × RolloutStatus
  unfolding available_condition_of progress_condition set_progress timed_out
  progress c status became_unhealthy =
      let ro = the_rollout c in
      if rollout_healthy ro status
      then (c, set status (available_condition_of c))
      else (if rollout_progressing ro status || became_unhealthy
          then (
            c,
            set_progress status (progress_condition c status became_unhealthy)
                (get_rollout_condition ro.status ConditionTypes.progressing),
          )
          else (if not (is_indefinite_step ro)
                && not (is_waiting_for_replica_set_scale_down c)
                && rollout_timed_out now ro status
              then timed_out c status
              else (c, status)))

  unfoldable pub progressing_condition :
      RolloutContext → RolloutStatus → (became_unhealthy : Bool) → RolloutContext × RolloutStatus
  unfolding is_settled progress
  progressing_condition c status became_unhealthy =
      if not (
          is_settled status
            (get_rollout_condition (the_rollout c).status ConditionTypes.progressing))
        && not (is_aborted c.pause)
      then progress c status became_unhealthy
      else (c, status)

  module _ (lib : Library) where
    saturated_at : ℤ → ReplicaSet → Option ℤ → Bool
    saturated_at replicas rs none = false
    saturated_at replicas rs (some desired) =
        eqb_ℤ rs.replicas replicas
        && eqb_ℤ (int32 desired) replicas
        && eqb_ℤ rs.available_replicas replicas

    -- annotations.IsSaturated
    unfoldable pub is_saturated : Rollout → Option ReplicaSet → Bool
    unfolding saturated_at
    is_saturated ro none = false
    is_saturated ro (some rs) =
        saturated_at (get_replicas_or_default ro.spec.replicas) rs
          (lib.parse_int32 rs.desired_replicas)

    is_available : RolloutContext → RolloutStatus → Bool
    is_available c status =
        let ro = the_rollout c in
        (is_some ro.spec.blue_green
          && is_saturated ro
              (get_replica_set_by_template_hash c.all_rss status.blue_green.active_selector))
        || (is_some ro.spec.canary
            && not (
                ltb_ℤ (get_available_replica_count_for_replica_sets (pointers c.all_rss))
                  (get_replicas_or_default ro.spec.replicas)))

    available_condition : RolloutContext → RolloutStatus → RolloutStatus
    unfolding is_available
    available_condition c status = set status (
        if is_available c status
        then new_rollout_condition now ConditionTypes.available condition_true available_reason
            available_message
        else new_rollout_condition now ConditionTypes.available condition_false available_reason
            not_available_message)

  failure_condition : List RolloutCondition → RolloutStatus → RolloutStatus
  failure_condition [] status = remove_rollout_condition status ConditionTypes.replica_failure
  failure_condition (c ∷ cs) status = set status c

  completed_condition : RolloutStatus → RolloutStatus
  completed_condition status = set status (
      new_rollout_condition now ConditionTypes.completed
        (if rollout_completed status then condition_true else condition_false)
        rollout_completed_reason rollout_completed_reason)

  unfoldable pub calculate_rollout_conditions :
      Library → RolloutContext → RolloutStatus → RolloutContext × RolloutStatus
  unfolding healthy_condition aborted_condition available_condition failure_condition
      completed_condition
  calculate_rollout_conditions lib c status =
      let (with_health, became_unhealthy) = healthy_condition (the_rollout c) status in
      let (next, with_progress) =
        progressing_condition c (aborted_condition c with_health) became_unhealthy in
      (
        next,
        completed_condition (
            failure_condition (get_replica_failures c.all_rss c.new_rs)
              (available_condition lib c with_progress)),
      )
