-- ===== src/Rollout/Sample.antt =====
-- Rollouts for the examples.
use intuit_argo_rollouts_dem.Prelude.{Bool, true, false, none, some, List, [], ◌∷◌, ℤ, pos}
use intuit_argo_rollouts_dem.Common.{from_int}
use intuit_argo_rollouts_dem.Rollout.{
  RolloutPause, CanaryStep, CanaryStrategy, canary_pause_step, PauseCondition, progressing_phase,
  no_ping_pong, CanaryStatus, BlueGreenStatus, RolloutStatus, Rollout,
}

-- A step that does nothing.
abbrev pub no_step : CanaryStep
no_step = record {
  set_weight = none;
  pause = none;
  experiment = none;
  analysis = none;
  set_canary_scale = none;
  set_header_route = none;
  set_mirror_route = none;
  plugin = none;
}

abbrev pub weight_step : ℤ → CanaryStep
weight_step w = record no_step { set_weight = some w }

abbrev pub pause_of : ℤ → RolloutPause
pause_of seconds = record { duration = some (from_int seconds) }

abbrev pub pause_step : CanaryStep
pause_step = record no_step { pause = some (pause_of (pos 30)) }

abbrev pub steps : List CanaryStep
steps = weight_step (pos 20) ∷ pause_step ∷ weight_step (pos 60) ∷ []

-- A canary with three steps, with or without traffic routing, and a surge and an unavailability of one.
abbrev pub canary : Bool → CanaryStrategy
canary dynamic = record {
  canary_service = "canary";
  stable_service = "stable";
  steps = steps;
  traffic_routing = elim dynamic [
    | true ↦ some (record { alb = false; max_traffic_weight = none })
    | false ↦ none
  ];
  max_unavailable = some (from_int (pos 1));
  max_surge = some (from_int (pos 1));
  scale_down_delay_seconds = none;
  scale_down_delay_revision_limit = none;
  abort_scale_down_delay_seconds = none;
  dynamic_stable_scale = dynamic;
  ping_pong = false;
  min_pods_per_replica_set = none;
}

abbrev pub paused_at : ℤ → PauseCondition
paused_at t = record { reason = canary_pause_step; start_time = t }

abbrev pub canary_status : CanaryStatus
canary_status = record {
  current_step_analysis_run_status = none;
  current_background_analysis_run_status = none;
  weights = none;
  stable_ping_pong = no_ping_pong;
  step_plugin_statuses = [];
}

abbrev pub blue_green_status : BlueGreenStatus
blue_green_status = record {
  preview_selector = "";
  active_selector = "";
  scale_up_preview_check_point = false;
  pre_promotion_analysis_run_status = none;
  post_promotion_analysis_run_status = none;
}

-- In its second step, paused since time 100.
abbrev pub status : RolloutStatus
status = record {
  abort = false;
  pause_conditions = paused_at (pos 100) ∷ [];
  controller_pause = true;
  aborted_at = none;
  current_pod_hash = "new";
  current_step_hash = "steps";
  replicas = pos 11;
  updated_replicas = pos 2;
  ready_replicas = pos 11;
  available_replicas = pos 11;
  current_step_index = some 1;
  observed_generation = "1";
  conditions = [];
  canary = canary_status;
  blue_green = blue_green_status;
  hpa_replicas = pos 11;
  stable_rs = "old";
  restarted_at = none;
  promote_full = false;
  phase = progressing_phase;
  message = "";
}

abbrev pub rollout_of : Bool → Rollout
rollout_of dynamic = record {
  name = "demo";
  generation = pos 1;
  spec = record {
    replicas = some (pos 10);
    paused = false;
    progress_deadline_seconds = none;
    progress_deadline_abort = false;
    restart_at = none;
    rollback_window = none;
    scale_down_workload_on_success = false;
    canary = some (canary dynamic);
    blue_green = none;
  };
  status = status;
}

abbrev pub rollout : Rollout
rollout = rollout_of false
