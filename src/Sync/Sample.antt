-- ===== src/Sync/Sample.antt =====
-- A reconciliation for the examples.
use intuit_argo_rollouts_dem.Prelude.{String, true, false, none, some, [], ◌∷◌, ℤ, pos}
use intuit_argo_rollouts_dem.Common.{Time, Library, IntOrString, from_int, from_string}
use intuit_argo_rollouts_dem.Rollout.Sample.{rollout, status}
use intuit_argo_rollouts_dem.Canary.Types.{ReplicaSet}
use intuit_argo_rollouts_dem.Canary.Fenceposts.{OfPercent}
use intuit_argo_rollouts_dem.Context.{RolloutContext}

abbrev pub int_or_zero : IntOrString → ℤ
int_or_zero (from_int z) = z
int_or_zero (from_string s) = pos 0

abbrev pub library : Library
library = record { int_value = int_or_zero; parse_duration = λ s. none; parse_int32 = λ s. none }

abbrev pub whole : OfPercent
whole (from_int z) total up = some z
whole (from_string s) total up = none

abbrev pub set_of : String → ℤ → ReplicaSet
set_of name n = record {
  name = name;
  replicas = n;
  available_replicas = n;
  current_replicas = n;
  ready_replicas = n;
  pod_hash = name;
  created = pos 0;
  scale_down_deadline = none;
  experiment_name = "";
  desired_replicas = "";
  conditions = [];
}

-- In the pause of the second step, which is over after 30 seconds.
abbrev pub context : RolloutContext
context = record {
  pause = record {
    rollout = rollout;
    add_pause_reasons = [];
    remove_pause_reasons = [];
    should_clear = false;
    should_abort = false;
    should_unabort = false;
    abort_message = "";
  };
  new_rs = some (set_of "new" (pos 2));
  stable_rs = some (set_of "old" (pos 9));
  all_rss = set_of "new" (pos 2) ∷ set_of "old" (pos 9) ∷ [];
  other_rss = [];
  new_status = record status { current_step_index = none };
  current_ex = none;
  canary_step_run = none;
  pre_promotion_run = none;
  post_promotion_run = none;
  targets_verified = none;
  plugins = record { step_plugin_statuses = none; has_error = false };
  is_valid = true;
  template_hash = "new";
  step_hash = "steps";
  revision = pos 2;
  scales_workload = true;
  filter_active = λ rss. rss;
}

abbrev pub now : Time
now = pos 50_000_000_100
