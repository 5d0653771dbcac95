-- ===== src/ScaleDown/Examples.antt =====
-- Examples of scaling down old ReplicaSets.
use intuit_argo_rollouts_dem.Prelude.{
  ◌≡◌, ◌≤◌, refl, true, false, none, some, List, [], ◌∷◌, pos, pos_part, arith,
}
use intuit_argo_rollouts_dem.Rollout.Sample.{canary}
use intuit_argo_rollouts_dem.Canary.Types.{ReplicaSet}
use intuit_argo_rollouts_dem.Context.{the_rollout}
use intuit_argo_rollouts_dem.Sync.Sample.{library, whole, set_of, context, now}
use intuit_argo_rollouts_dem.ScaleDown.{Cluster, not_found}
use intuit_argo_rollouts_dem.ScaleDown.Canary.{
  cleanup_unhealthy_replicas, scale_down_old_replica_sets_for_canary, max_scale_down_of,
}
use intuit_argo_rollouts_dem.ScaleDown.Canary.Within.{
  taken, scale_down_old_replica_sets_for_canary-taken,
}
use intuit_argo_rollouts_dem.ScaleDown.BlueGreen.{scale_down_old_replica_sets_for_blue_green}
use intuit_argo_rollouts_dem.ScaleDown.BlueGreen.References.{
  spares_referenced, scale_down_old_replica_sets_for_blue_green-spares,
}

abbrev cluster : Cluster
cluster = record {
  service = λ name. not_found;
  update = λ rs. some rs;
  patches = λ rs. true;
  parse_time = λ text. none;
  oldest_first = λ rss. rss;
  latest_revision_first = λ rss. rss;
  targets_verified = some true;
  resync_period = pos 900_000_000_000;
}

abbrev older : List ReplicaSet
older = set_of "older" (pos 3) ∷ []

scale_down_old_replica_sets_for_canary-taken_example :
    taken
      (scale_down_old_replica_sets_for_canary whole cluster now context
        (canary false)
        older).actions
    ≤ pos_part (max_scale_down_of whole cluster now context)
scale_down_old_replica_sets_for_canary-taken_example =
    scale_down_old_replica_sets_for_canary-taken whole cluster now context (canary false) older refl
      (unfold cleanup_unhealthy_replicas in ((ground arith, refl), tt))

scale_down_old_replica_sets_for_blue_green-spares_example :
    spares_referenced cluster
      (the_rollout context)
      (scale_down_old_replica_sets_for_blue_green cluster now library context older).0.actions
    ≡ true
scale_down_old_replica_sets_for_blue_green-spares_example =
    scale_down_old_replica_sets_for_blue_green-spares cluster now library context older
