-- ===== src/Restart/Examples.antt =====
-- Examples of restarts.
use intuit_argo_rollouts_dem.Prelude.{
  sub32, int32, ◌-ℤ◌, add32, ◌+ℤ◌, ◌≡◌, refl, true, false, String, some, List, [], ◌∷◌, ℤ, pos,
}
use intuit_argo_rollouts_dem.Canary.ReplicaSets.{get_replica_count_for_replica_sets}
use intuit_argo_rollouts_dem.Rollout.Defaults.{
  get_replicas_or_default, get_max_surge_or_default, get_max_unavailable_or_default,
}
use intuit_argo_rollouts_dem.Canary.Fenceposts.{max_unavailable, resolve_fenceposts}
use intuit_argo_rollouts_dem.Context.{RolloutContext, the_rollout}
use intuit_argo_rollouts_dem.Sync.Sample.{context, whole, now}
use intuit_argo_rollouts_dem.Restart.{
  restart_pods, restart_pod, get_available_pod_count, Pod, Eviction, evicted, needs_restart,
  restart_budget, reconcile_restart,
}
use intuit_argo_rollouts_dem.Restart.Budget.{IsWithinBudget, reconcile_restart-IsWithinBudget}

abbrev pod : String → ℤ → Pod
pod name created = record {
  name = name;
  created = created;
  is_deleting = false;
  is_available = true;
}

abbrev pods : List Pod
pods = pod "a" (pos 1) ∷ pod "b" (pos 2) ∷ pod "c" (pos 9) ∷ []

abbrev answer : Pod → Eviction
answer p = evicted

abbrev restarting : RolloutContext
restarting = record context {
  pause = record context.pause {
    rollout = record context.pause.rollout {
      spec = record context.pause.rollout.spec {
        restart_at = some (pos 5);
        replicas = some (pos 3);
      };
    };
  };
  all_rss = [];
}

reconcile_restart-IsWithinBudget_example :
    IsWithinBudget
      (restart_budget whole restarting pods)
      (needs_restart now (the_rollout restarting))
      (reconcile_restart whole restarting now (pos 300) answer pods)
reconcile_restart-IsWithinBudget_example =
    reconcile_restart-IsWithinBudget whole restarting now (pos 300) answer pods

-- Of three available pods one may be restarted: the first of the two old ones.
restarted_first :
    (reconcile_restart whole restarting now (pos 300) answer pods).restarted ≡ pod "a" (pos 1) ∷ []
unfolding reconcile_restart needs_restart restart_pods restart_pod restart_budget sub32 int32 ◌-ℤ◌
    get_available_pod_count add32 ◌+ℤ◌ get_replica_count_for_replica_sets get_replicas_or_default
    max_unavailable resolve_fenceposts get_max_surge_or_default get_max_unavailable_or_default
restarted_first = refl
