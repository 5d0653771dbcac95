-- ===== src/Sync/Canary.antt =====
-- rollout/canary.go: completedCurrentCanaryStep and syncRolloutStatusCanary, with
-- persistRolloutStatus of rollout/sync.go up to the status that it sends.
pub mod Moves
pub mod Indexes
pub mod Transitions
pub mod Promotion
pub mod Total
use intuit_argo_rollouts_dem.Prelude.{
  String, Bool, true, false, not, ◌&&◌, ◌||◌, ◌==◌, Option, none, some, List, [], ◌∷◌, ◌+◌, ℕ, suc,
  ℤ, pos, show_int, str_eq, length, is_some, if◌then◌else◌,
}
use intuit_argo_rollouts_dem.Common.{Time, Library}
use intuit_argo_rollouts_dem.Rollout.{
  Rollout, RolloutStatus, CanaryStep, CanaryStrategy, CanaryStatus, TrafficWeights, RolloutPause,
  StepPluginStatus, canary_pause_step,
}
use intuit_argo_rollouts_dem.Canary.Types.{ReplicaSet}
use intuit_argo_rollouts_dem.Canary.ReplicaSets.{get_available_replica_count_for_replica_sets}
use intuit_argo_rollouts_dem.Canary.Floats.{Float64}
use intuit_argo_rollouts_dem.Canary.Fenceposts.{OfPercent}
use intuit_argo_rollouts_dem.Canary.Basic.{at_desired_replica_counts_for_canary}
use intuit_argo_rollouts_dem.Canary.Steps.{get_current_canary_step, index_or_zero, steps_of}
use intuit_argo_rollouts_dem.Pause.{
  PauseContext, is_aborted, remove_pause_condition, calculate_pause_status,
  completed_canary_pause_step,
}
use intuit_argo_rollouts_dem.Status.Phase.{calculate_rollout_phase}
use intuit_argo_rollouts_dem.Plugins.{statuses_of, update_status}
use intuit_argo_rollouts_dem.Plugins.Statuses.{is_step_plugin_completed}
use intuit_argo_rollouts_dem.Context.{RolloutContext, the_rollout, pointers}
use intuit_argo_rollouts_dem.Sync.{
  get_actual_replica_count_for_replica_sets, is_active, calculate_base_status, reset_rollout_status,
  is_rollback_within_window, cleared, is_successful, should_full_promote, promote_stable,
}
use intuit_argo_rollouts_dem.Sync.Conditions.{calculate_rollout_conditions}

unfoldable pub check_step_hash_change : RolloutContext → Bool
check_step_hash_change c =
    let status = (the_rollout c).status in
    str_eq status.current_step_hash "" || not (str_eq status.current_step_hash c.step_hash)

new_hash : String → Option ReplicaSet → String
new_hash hash none = hash
new_hash hash (some rs) = rs.pod_hash

unfoldable pub check_pod_spec_change : RolloutContext → Bool
unfolding new_hash
check_pod_spec_change c =
    let current = (the_rollout c).status.current_pod_hash in
    not (str_eq current "") && not (str_eq current (new_hash c.template_hash c.new_rs))

unfoldable pub pod_template_or_steps_changed : RolloutContext → Bool
pod_template_or_steps_changed c = check_step_hash_change c || check_pod_spec_change c

is_unverified : Option TrafficWeights → Bool
is_unverified none = false
is_unverified (some w) = elim w.verified [ none ↦ false | some b ↦ not b ]

some_or_nil : Option (List StepPluginStatus) → List StepPluginStatus
some_or_nil none = []
some_or_nil (some ss) = ss

-- The counts are none only without a canary, where there is no step.
is_true : Option Bool → Bool
is_true none = false
is_true (some b) = b

module _ (lib : Library) (fl : Float64) (of_percent : OfPercent) where
  at_desired_counts : RolloutContext → Bool
  unfolding is_true
  at_desired_counts c = is_true (
      at_desired_replica_counts_for_canary fl of_percent (the_rollout c) c.new_rs c.stable_rs
        (pointers c.other_rss) c.new_status.canary.weights)

  -- The switch over the kinds of a step, which the first that is there decides.
  completed_kind : Time → RolloutContext → ℕ → Option RolloutPause → CanaryStep → Bool
  unfolding at_desired_counts is_unverified some_or_nil
  completed_kind now c i (some pause) step = completed_canary_pause_step lib now c.pause pause
  completed_kind now c i none step =
      if is_some step.set_canary_scale
      then at_desired_counts c
      else (if is_some step.set_weight
          then at_desired_counts c && not (is_unverified c.new_status.canary.weights)
          else (if is_some step.experiment
              then is_successful c.current_ex
              else (if is_some step.analysis
                  then is_successful c.canary_step_run
                  else is_some step.set_header_route
                    || is_some step.set_mirror_route
                    || (is_some step.plugin
                        && is_step_plugin_completed c.plugins.has_error
                            (some_or_nil c.plugins.step_plugin_statuses) i))))

  completed_step : Time → RolloutContext → Option CanaryStep × Option ℕ → Bool
  unfolding completed_kind
  completed_step now c (none, i) = false
  completed_step now c (some step, i) = completed_kind now c (index_or_zero i) step.pause step

  unfoldable pub completed_current_canary_step : Time → RolloutContext → Bool
  unfolding completed_step
  completed_current_canary_step now c =
      if (the_rollout c).spec.paused
      then false
      else completed_step now c (get_current_canary_step (the_rollout c))

-- The new status, before the step is looked at.
unfoldable pub canary_base : RolloutContext → RolloutStatus
canary_base c =
    let ro = the_rollout c in
    let base = calculate_base_status c in
    record base {
      available_replicas = get_available_replica_count_for_replica_sets (pointers c.all_rss);
      hpa_replicas = get_actual_replica_count_for_replica_sets (pointers c.all_rss);
      canary = record base.canary {
        stable_ping_pong = ro.status.canary.stable_ping_pong;
        step_plugin_statuses = update_status c.plugins (statuses_of ro);
      };
      stable_rs = ro.status.stable_rs;
      current_step_hash = c.step_hash;
    }

abbrev pub step_count : RolloutContext → ℕ
step_count c = length (steps_of (the_rollout c).spec.canary)

abbrev with_index : RolloutStatus → Option ℕ → RolloutStatus
with_index status index = record status { current_step_index = index }

-- Whether the new set is the stable one.
is_stable_set : String → Option ReplicaSet → Bool
is_stable_set stable none = false
is_stable_set stable (some rs) = str_eq stable rs.pod_hash

-- After a change of the template or the steps: the context and the status.
unfoldable pub restarted : RolloutContext → RolloutContext × RolloutStatus
unfolding is_stable_set
restarted c =
    let (next, status) = reset_rollout_status c (canary_base c) in
    (
      next,
      if is_some c.new_rs
            && not (step_count c == 0)
            && (is_stable_set (the_rollout c).status.stable_rs c.new_rs
                || (is_rollback_within_window c && is_active c c.new_rs))
          then with_index status (some (step_count c))
          else status,
    )

-- At an abort.
unfoldable pub aborted_status : RolloutContext → RolloutStatus → RolloutStatus
aborted_status c status =
    if step_count c == 0
    then status
    else with_index status
        (if str_eq status.stable_rs status.current_pod_hash then some (step_count c) else some 0)

-- Whether the steps are skipped.
unfoldable pub skips_steps : RolloutContext → Bool
skips_steps c = (the_rollout c).status.promote_full || is_rollback_within_window c

unfoldable pub unskipped : RolloutContext → RolloutContext
unskipped c = if skips_steps c then cleared c else c

unfoldable pub next_index : RolloutContext → Option ℕ
next_index c =
    if skips_steps c && not (step_count c == 0)
    then some (step_count c)
    else (get_current_canary_step (the_rollout c)).1

-- `*currentStepIndex++`, of an index that is there with every step.
unfoldable pub increment : Option ℕ → Option ℕ
increment none = none
increment (some i) = some (suc i)

-- Promoted, where there is a reason; nothing on an error.
unfoldable pub promoted :
    RolloutContext × RolloutStatus × Bool → Option (RolloutContext × RolloutStatus)
promoted (c, status, ok) = if ok then some (c, status) else none

module _ (lib : Library) (fl : Float64) (of_percent : OfPercent) (now : Time) where
  unfoldable pub stepped :
      RolloutContext → Option ℕ → RolloutStatus → RolloutContext × RolloutStatus
  unfolding increment
  stepped c index status =
      if completed_current_canary_step lib fl of_percent now c
      then (
        record c { pause = remove_pause_condition canary_pause_step c.pause },
        record status {
          current_step_index = increment index;
          canary = record status.canary { current_step_analysis_run_status = none };
        },
      )
      else (c, with_index status index)

  continued :
      RolloutContext
      → Option ℕ
      → RolloutStatus
      → Option String
      → Option (RolloutContext × RolloutStatus)
  unfolding aborted_status stepped promoted
  continued c index status (some reason) = promoted (promote_stable c status)
  continued c index status none =
      some (if is_aborted c.pause then (c, aborted_status c status) else stepped c index status)

  -- The context and the new status before its conditions; nothing on an error.
  unfoldable pub next_canary_status : RolloutContext → Option (RolloutContext × RolloutStatus)
  unfolding restarted unskipped next_index continued
  next_canary_status c =
      if pod_template_or_steps_changed c
      then some (restarted c)
      else (let next = unskipped c in
          let status = canary_base c in
          continued next (next_index c) status (should_full_promote next status))

  -- The status that is sent: with the pauses, the generation and the phase.
  unfoldable pub persisted : RolloutContext → RolloutStatus → RolloutStatus
  persisted c status =
      let ro = the_rollout c in
      let with_pauses = calculate_pause_status now c.pause status in
      let observed = record with_pauses { observed_generation = show_int ro.generation } in
      let (phase, message) = calculate_rollout_phase ro.spec observed in
      record observed { phase = phase; message = message }

  unfoldable pub finish : Option (RolloutContext × RolloutStatus) → Option RolloutStatus
  finish none = none
  finish (some (c, status)) =
      let (next, with_conditions) = calculate_rollout_conditions now lib c status in
      some (persisted next with_conditions)

  unfoldable pub sync_rollout_status_canary : RolloutContext → Option RolloutStatus
  unfolding finish
  sync_rollout_status_canary c = finish (next_canary_status c)
