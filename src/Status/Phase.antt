-- ===== src/Status/Phase.antt =====
-- utils/rollout/rolloututil.go: the phase of a rollout and its message.
pub mod Healthy
use intuit_argo_rollouts_dem.Prelude.{
  String, Bool, true, false, not, ◌&&◌, ◌||◌, Option, none, some, List, [], ◌∷◌, ℤ, ◌<>◌, str_eq,
  eqb_ℤ, ltb_ℤ, is_some, if◌then◌else◌,
}
use intuit_argo_rollouts_dem.Common.{Time}
use intuit_argo_rollouts_dem.Analysis.Types.{completed}
use intuit_argo_rollouts_dem.Rollout.{
  PauseReason, inconclusive_analysis, inconclusive_experiment, canary_pause_step, blue_green_pause,
  PauseCondition, RolloutCondition, CanaryStrategy, BlueGreenStrategy, RolloutTrafficRouting,
  RolloutAnalysisRunStatus, RolloutPhase, healthy_phase, degraded_phase, progressing_phase,
  paused_phase, RolloutSpec, RolloutStatus, Rollout,
}
use intuit_argo_rollouts_dem.Rollout.ConditionTypes
use intuit_argo_rollouts_dem.Rollout.Defaults.{get_replicas_or_default}
use intuit_argo_rollouts_dem.Status.Reasons.{rollout_aborted_reason, timed_out_reason}

abbrev pub Phase : Type 0
Phase = RolloutPhase × String

unfoldable pub is_fully_promoted : RolloutStatus → Bool
is_fully_promoted status = str_eq status.stable_rs status.current_pod_hash

has_none : List PauseCondition → Bool
has_none [] = true
has_none (c ∷ cs) = false

unfoldable pub is_unpausing : RolloutStatus → Bool
unfolding has_none
is_unpausing status = status.controller_pause && has_none status.pause_conditions

abbrev pause_reason_name : PauseReason → String
pause_reason_name inconclusive_analysis = "InconclusiveAnalysisRun"
pause_reason_name inconclusive_experiment = "InconclusiveExperiment"
pause_reason_name canary_pause_step = "CanaryPauseStep"
pause_reason_name blue_green_pause = "BlueGreenPause"

abbrev pub is_bad_reason : String → Bool
is_bad_reason reason = str_eq reason rollout_aborted_reason || str_eq reason timed_out_reason

-- The loop over the conditions, which returns at the first that degrades the rollout.
unfoldable pub degraded_by : List RolloutCondition → Option Phase
degraded_by [] = none
degraded_by (c ∷ cs) =
    if str_eq c.kind ConditionTypes.invalid_spec
    then some (degraded_phase, ConditionTypes.invalid_spec <> ": " <> c.message)
    else (if is_bad_reason c.reason
        then some (degraded_phase, c.reason <> ": " <> c.message)
        else degraded_by cs)

abbrev pub restart_done : (restart_at restarted_at : Option Time) → Bool
restart_done none restarted_at = true
restart_done (some t) none = false
restart_done (some t) (some u) = eqb_ℤ t u

abbrev run_completed : Option RolloutAnalysisRunStatus → Bool
run_completed none = false
run_completed (some r) = completed r.status

unfoldable pub waiting_for_blue_green_post_promotion_analysis :
    BlueGreenStrategy → RolloutStatus → Bool
waiting_for_blue_green_post_promotion_analysis b status =
    is_some b.post_promotion_analysis
    && not (run_completed status.blue_green.post_promotion_analysis_run_status)

abbrev healthy : Phase
healthy = (healthy_phase, "")

abbrev progressing_as : String → Phase
progressing_as message = (progressing_phase, message)

-- Whether the stable ReplicaSet is unset or not the current one.
abbrev pub not_promoted : RolloutStatus → Bool
not_promoted status = str_eq status.stable_rs "" || not (is_fully_promoted status)

blue_green_phase : BlueGreenStrategy → RolloutStatus → Phase
blue_green_phase b status =
    if str_eq status.blue_green.active_selector ""
      || not (str_eq status.blue_green.active_selector status.current_pod_hash)
    then progressing_as "active service cutover pending"
    else (if not_promoted status
        then progressing_as (
            if waiting_for_blue_green_post_promotion_analysis b status
            then "waiting for analysis to complete"
            else "waiting for post-promotion verification to complete")
        else healthy)

canary_phase : Option CanaryStrategy → RolloutStatus → Phase
canary_phase none status = healthy
canary_phase (some c) status =
    if not (is_some c.traffic_routing) && ltb_ℤ status.updated_replicas status.replicas
    then progressing_as "old replicas are pending termination"
    else (if not_promoted status
        then progressing_as "waiting for all steps to complete"
        else healthy)

strategy_phase : Option BlueGreenStrategy → Option CanaryStrategy → RolloutStatus → Phase
unfolding blue_green_phase canary_phase
strategy_phase (some b) c status = blue_green_phase b status
strategy_phase none c status = canary_phase c status

-- The loop over the pause conditions, which returns at the first.
paused_by : List PauseCondition → Option Phase
paused_by [] = none
paused_by (c ∷ cs) = some (paused_phase, pause_reason_name c.reason)

phase_by_counts : RolloutSpec → RolloutStatus → Phase
unfolding strategy_phase
phase_by_counts spec status =
    if not (restart_done spec.restart_at status.restarted_at)
    then progressing_as "rollout is restarting"
    else (if ltb_ℤ status.updated_replicas (get_replicas_or_default spec.replicas)
        then progressing_as "more replicas need to be updated"
        else (if ltb_ℤ status.available_replicas status.updated_replicas
            then progressing_as "updated replicas are still becoming available"
            else strategy_phase spec.blue_green spec.canary status))

abbrev or_phase : Option Phase → Phase → Phase
or_phase none p = p
or_phase (some q) p = q

unfoldable pub calculate_rollout_phase : RolloutSpec → RolloutStatus → Phase
unfolding phase_by_counts paused_by
calculate_rollout_phase spec status = or_phase (degraded_by status.conditions) (
    if spec.paused
    then (paused_phase, "manually paused")
    else or_phase (paused_by status.pause_conditions) (phase_by_counts spec status))
