-- ===== src/Restart.antt =====
-- rollout/restart.go: the restart of a rollout's pods. The pods that the API lists, whether
-- Kubernetes takes them to be available, and what it answers to an eviction are parameters.
pub mod Budget
mod Examples
use intuit_argo_rollouts_dem.Prelude.{
  ℕ, suc, ◌+◌, ◌-◌, Bool, true, false, not, ◌&&◌, ◌||◌, ◌==◌, String, Option, none, some, List, [],
  ◌∷◌, ℤ, pos, ◌+ℤ◌, ◌-ℤ◌, add32, sub32, leb_ℤ, length, if◌then◌else◌,
}
use intuit_argo_rollouts_dem.Common.{Time, Duration, after}
use intuit_argo_rollouts_dem.Rollout.{Rollout}
use intuit_argo_rollouts_dem.Rollout.Defaults.{get_replicas_or_default}
use intuit_argo_rollouts_dem.Canary.Types.{ReplicaSet}
use intuit_argo_rollouts_dem.Canary.Fenceposts.{OfPercent, max_unavailable}
use intuit_argo_rollouts_dem.Canary.ReplicaSets.{get_replica_count_for_replica_sets}
use intuit_argo_rollouts_dem.Context.{RolloutContext, the_rollout, pointers}
use intuit_argo_rollouts_dem.Traffic.{max_int}

pub record Pod : Type 0 where
  pub name : String
  pub created : Time
  pub is_deleting : Bool
  pub is_available : Bool

-- The answer to an eviction: a budget of disruptions may refuse it.
pub data Eviction : Type 0 where
  evicted : Eviction
  too_many_requests : Eviction
  eviction_failed : Eviction

time_equal : Option Time → Time → Bool
time_equal none t = false
time_equal (some u) t = leb_ℤ u t && leb_ℤ t u

-- The time of the restart that is due.
due_restart : (now : Time) → (restart_at restarted_at : Option Time) → Option Time
due_restart now none restarted_at = none
due_restart now (some t) restarted_at =
    if time_equal restarted_at t then none else (if after now t then some t else none)

unfoldable pub needs_restart : Time → Rollout → Option Time
unfolding due_restart time_equal
needs_restart now ro = due_restart now ro.spec.restart_at ro.status.restarted_at

enqueue_before : (now : Time) → Duration → Option Time → Option Duration
enqueue_before now resync_period none = none
enqueue_before now resync_period (some t) =
    if after now t then none else (if after (now +ℤ resync_period) t then some (t -ℤ now) else none)

-- How long before the restart the rollout is to be reconciled again.
unfoldable pub check_enqueue_rollout :
    (now : Time) → (resync_period : Duration) → Rollout → Option Duration
unfolding enqueue_before
check_enqueue_rollout now resync_period ro = enqueue_before now resync_period ro.spec.restart_at

unfoldable pub get_available_pod_count : List Pod → ℤ
get_available_pod_count [] = pos 0
get_available_pod_count (p ∷ ps) =
    let rest = get_available_pod_count ps in
    if p.is_available && not p.is_deleting then add32 rest (pos 1) else rest

-- The variables of the loop. The evicted pods are listed, the latest first.
pub record Round : Type 0 where
  pub can_restart : ℤ
  pub needed : ℕ
  pub restarted : List Pod

answered : Eviction → Pod → Round → Round × Bool
answered evicted p r =
    (record r { can_restart = sub32 r.can_restart (pos 1); restarted = p ∷ r.restarted }, true)
answered too_many_requests p r = (r, true)
answered eviction_failed p r = (r, false)

-- The round after a pod, and whether the loop goes on.
unfoldable pub restart_pod : (Pod → Eviction) → (restart_at : Time) → Pod → Round → Round × Bool
unfolding answered
restart_pod evict restart_at p r =
    let counted = record r { needed = suc r.needed } in
    if leb_ℤ restart_at p.created
    then (r, true)
    else (if leb_ℤ r.can_restart (pos 0) || p.is_deleting
        then (counted, true)
        else answered (evict p) p counted)

continued : Round × Bool → (Round → Round × Bool) → Round × Bool
continued (r, false) rest = (r, false)
continued (r, true) rest = rest r

unfoldable pub restart_pods :
    (Pod → Eviction) → (restart_at : Time) → List Pod → Round → Round × Bool
unfolding continued
restart_pods evict restart_at [] r = (r, true)
restart_pods evict restart_at (p ∷ ps) r =
    continued (restart_pod evict restart_at p r) (restart_pods evict restart_at ps)

-- What the reconciliation does: the pods that it evicts, when it asks to be called again, and
-- whether it sets the time of the restart.
pub record Restart : Type 0 where
  pub restarted : List Pod
  pub enqueue_after : Option Duration
  pub sets_restarted_at : Bool
  pub succeeds : Bool

abbrev waiting : Option Duration → Restart
waiting enqueue_after = record {
  restarted = [];
  enqueue_after = enqueue_after;
  sets_restarted_at = false;
  succeeds = true;
}

finished : Round × Bool → Restart
finished (r, false) = record {
  restarted = r.restarted;
  enqueue_after = none;
  sets_restarted_at = false;
  succeeds = false;
}
finished (r, true) =
    let remaining = not (r.needed == length r.restarted) in
    record {
      restarted = r.restarted;
      enqueue_after = if remaining then some (pos 30_000_000_000) else none;
      sets_restarted_at = not remaining;
      succeeds = true;
    }

module _ (of_percent : OfPercent) (c : RolloutContext) where
  -- The pods that may be restarted.
  unfoldable pub restart_budget : List Pod → ℤ
  restart_budget pods =
      let ro = the_rollout c in
      let total = get_replica_count_for_replica_sets (pointers c.all_rss) in
      let concurrent = max_int (max_unavailable of_percent ro) (pos 1) in
      let minimum = sub32 (max_int (get_replicas_or_default ro.spec.replicas) total) concurrent in
      sub32 (get_available_pod_count pods) minimum

  reconcile_due : Option Duration → (Pod → Eviction) → List Pod → Option Time → Restart
  unfolding finished
  reconcile_due enqueue_after evict pods none = waiting enqueue_after
  reconcile_due enqueue_after evict pods (some restart_at) = finished (
      restart_pods evict restart_at pods
        (record { can_restart = restart_budget pods; needed = 0; restarted = [] }))

  -- The reconciliation where the API lists the pods. A rollout that is due is not also waiting for
  -- its time.
  unfoldable pub reconcile_restart :
      (now : Time) → (resync_period : Duration) → (Pod → Eviction) → List Pod → Restart
  unfolding reconcile_due
  reconcile_restart now resync_period evict pods =
      reconcile_due (check_enqueue_rollout now resync_period (the_rollout c)) evict pods
        (needs_restart now (the_rollout c))
