-- ===== src/Rollout.antt =====
-- The rollout resource, as far as the modelled code reads it: types.go of
-- pkg/apis/rollouts/v1alpha1, with the defaults of utils/defaults/defaults.go.
pub mod Defaults
pub mod ConditionTypes
pub mod Sample
use intuit_argo_rollouts_dem.Prelude.{ℕ, String, Bool, Option, List, ℤ}
use intuit_argo_rollouts_dem.Common.{Time, IntOrString}
use intuit_argo_rollouts_dem.Analysis.Types.{AnalysisPhase}

pub record RolloutPause : Type 0 where
  pub duration : Option IntOrString

pub record SetCanaryScale : Type 0 where
  pub weight : Option ℤ
  pub replicas : Option ℤ
  pub match_traffic_weight : Bool

-- A step of a canary. An experiment or an analysis is its list of template names; a header or mirror
-- route and a plugin are their name.
pub record CanaryStep : Type 0 where
  pub set_weight : Option ℤ
  pub pause : Option RolloutPause
  pub experiment : Option (List String)
  pub analysis : Option (List String)
  pub set_canary_scale : Option SetCanaryScale
  pub set_header_route : Option String
  pub set_mirror_route : Option String
  pub plugin : Option String

-- Of the traffic routers only whether it is an ALB and the maximum weight are read here.
pub record RolloutTrafficRouting : Type 0 where
  pub alb : Bool
  pub max_traffic_weight : Option ℤ

-- `ping_pong` says whether the strategy has a ping and a pong service.
pub record CanaryStrategy : Type 0 where
  pub canary_service : String
  pub stable_service : String
  pub steps : List CanaryStep
  pub traffic_routing : Option RolloutTrafficRouting
  pub max_unavailable : Option IntOrString
  pub max_surge : Option IntOrString
  pub scale_down_delay_seconds : Option ℤ
  pub scale_down_delay_revision_limit : Option ℤ
  pub abort_scale_down_delay_seconds : Option ℤ
  pub dynamic_stable_scale : Bool
  pub ping_pong : Bool
  pub min_pods_per_replica_set : Option ℤ

-- An analysis before or after the promotion is its list of template names.
pub record BlueGreenStrategy : Type 0 where
  pub active_service : String
  pub preview_service : String
  pub preview_replica_count : Option ℤ
  pub auto_promotion_enabled : Option Bool
  pub auto_promotion_seconds : ℤ
  pub max_unavailable : Option IntOrString
  pub scale_down_delay_seconds : Option ℤ
  pub scale_down_delay_revision_limit : Option ℤ
  pub pre_promotion_analysis : Option (List String)
  pub post_promotion_analysis : Option (List String)
  pub abort_scale_down_delay_seconds : Option ℤ

-- `rollback_window` is its number of revisions; `scale_down_workload_on_success` says whether there
-- is a reference to a workload that is to be scaled down so.
pub record RolloutSpec : Type 0 where
  pub replicas : Option ℤ
  pub paused : Bool
  pub progress_deadline_seconds : Option ℤ
  pub progress_deadline_abort : Bool
  pub restart_at : Option Time
  pub rollback_window : Option ℤ
  pub scale_down_workload_on_success : Bool
  pub canary : Option CanaryStrategy
  pub blue_green : Option BlueGreenStrategy

pub data PauseReason : Type 0 where
  inconclusive_analysis inconclusive_experiment canary_pause_step blue_green_pause : PauseReason

pub record PauseCondition : Type 0 where
  pub reason : PauseReason
  pub start_time : Time

-- `type RolloutConditionType string`; its constants are in ConditionTypes.
abbrev pub RolloutConditionType : Type 0
RolloutConditionType = String

pub data ConditionStatus : Type 0 where
  condition_true condition_false condition_unknown : ConditionStatus

pub record RolloutCondition : Type 0 where
  pub kind : RolloutConditionType
  pub status : ConditionStatus
  pub last_update_time : Time
  pub last_transition_time : Time
  pub reason : String
  pub message : String

pub data RolloutPhase : Type 0 where
  unset_phase healthy_phase degraded_phase progressing_phase paused_phase : RolloutPhase

pub record WeightDestination : Type 0 where
  pub weight : ℤ
  pub service_name : String
  pub pod_template_hash : String

pub record TrafficWeights : Type 0 where
  pub canary : WeightDestination
  pub stable : WeightDestination
  pub additional : List WeightDestination
  pub verified : Option Bool

pub record RolloutAnalysisRunStatus : Type 0 where
  pub name : String
  pub status : AnalysisPhase
  pub message : String

pub data PingPongType : Type 0 where
  no_ping_pong ping pong : PingPongType

pub data StepPluginOperation : Type 0 where
  run_operation terminate_operation abort_operation : StepPluginOperation

pub data StepPluginPhase : Type 0 where
  plugin_running plugin_successful plugin_failed plugin_error plugin_unset : StepPluginPhase

-- The index is an int32 that is the index of a step.
pub record StepPluginStatus : Type 0 where
  pub index : ℕ
  pub name : String
  pub operation : StepPluginOperation
  pub phase : StepPluginPhase
  pub message : String
  pub updated_at : Option Time
  pub backoff : String
  pub disabled : Bool

pub record CanaryStatus : Type 0 where
  pub current_step_analysis_run_status : Option RolloutAnalysisRunStatus
  pub current_background_analysis_run_status : Option RolloutAnalysisRunStatus
  pub weights : Option TrafficWeights
  pub stable_ping_pong : PingPongType
  pub step_plugin_statuses : List StepPluginStatus

pub record BlueGreenStatus : Type 0 where
  pub preview_selector : String
  pub active_selector : String
  pub scale_up_preview_check_point : Bool
  pub pre_promotion_analysis_run_status : Option RolloutAnalysisRunStatus
  pub post_promotion_analysis_run_status : Option RolloutAnalysisRunStatus

-- The index of a step is an int32 that the controller only sets to 0 or raises.
pub record RolloutStatus : Type 0 where
  pub abort : Bool
  pub pause_conditions : List PauseCondition
  pub controller_pause : Bool
  pub aborted_at : Option Time
  pub current_pod_hash : String
  pub current_step_hash : String
  pub replicas : ℤ
  pub updated_replicas : ℤ
  pub ready_replicas : ℤ
  pub available_replicas : ℤ
  pub current_step_index : Option ℕ
  pub observed_generation : String
  pub conditions : List RolloutCondition
  pub canary : CanaryStatus
  pub blue_green : BlueGreenStatus
  pub hpa_replicas : ℤ
  pub stable_rs : String
  pub restarted_at : Option Time
  pub promote_full : Bool
  pub phase : RolloutPhase
  pub message : String

pub record Rollout : Type 0 where
  pub name : String
  pub generation : ℤ
  pub spec : RolloutSpec
  pub status : RolloutStatus
