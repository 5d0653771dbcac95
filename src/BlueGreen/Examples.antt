-- ===== src/BlueGreen/Examples.antt =====
-- Examples of blue-green rollouts.
use intuit_argo_rollouts_dem.Prelude.{refl, true, not, ◌||◌, none, some, pos, is_some}
use intuit_argo_rollouts_dem.Rollout.{BlueGreenStrategy}
use intuit_argo_rollouts_dem.Rollout.Sample.{rollout}
use intuit_argo_rollouts_dem.Canary.Floats.Rational.{rational}
use intuit_argo_rollouts_dem.Context.{RolloutContext}
use intuit_argo_rollouts_dem.Sync.Sample.{library, whole, context, now}
use intuit_argo_rollouts_dem.Sync.Canary.Promotion.{IsKept}
use intuit_argo_rollouts_dem.BlueGreen.{sync_rollout_status_blue_green}
use intuit_argo_rollouts_dem.BlueGreen.Promotion.{cuts_over, sync_rollout_status_blue_green-stable}

abbrev strategy : BlueGreenStrategy
strategy = record {
  active_service = "active";
  preview_service = "preview";
  preview_replica_count = some (pos 1);
  auto_promotion_enabled = some true;
  auto_promotion_seconds = pos 30;
  max_unavailable = none;
  scale_down_delay_seconds = none;
  scale_down_delay_revision_limit = none;
  pre_promotion_analysis = none;
  post_promotion_analysis = none;
  abort_scale_down_delay_seconds = none;
}

abbrev switching : RolloutContext
switching = record context {
  pause = record context.pause {
    rollout = record rollout {
      spec = record rollout.spec { canary = none; blue_green = some strategy };
    };
  };
}

sync_rollout_status_blue_green-stable_example :
    IsKept "old"
      (not (is_some switching.stable_rs) || cuts_over rational whole now switching (some "new"))
      (sync_rollout_status_blue_green rational whole now library switching strategy
        (some "new")
        (some "new"))
sync_rollout_status_blue_green-stable_example =
    sync_rollout_status_blue_green-stable rational whole now library switching strategy (some "new")
      (some "new") refl refl
