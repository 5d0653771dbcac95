-- ===== src/ScaleDown/Canary.antt =====
-- Scaling down the old ReplicaSets of a canary: cleanupUnhealthyReplicas of rollout/replicaset.go and
-- scaleDownOldReplicaSetsForCanary of rollout/canary.go.
pub mod Within
use intuit_argo_rollouts_dem.Prelude.{
  ℕ, String, Bool, true, false, not, ◌&&◌, ◌||◌, Option, none, some, List, [], ◌∷◌, ◌++◌, ℤ, pos,
  add32, sub32, eqb_ℤ, ltb_ℤ, leb_ℤ, is_some, if◌then◌else◌,
}
use intuit_argo_rollouts_dem.Common.{Time}
use intuit_argo_rollouts_dem.Rollout.{Rollout, CanaryStrategy}
use intuit_argo_rollouts_dem.Rollout.Defaults.{get_replicas_or_default}
use intuit_argo_rollouts_dem.Canary.Types.{ReplicaSet}
use intuit_argo_rollouts_dem.Canary.ReplicaSets.{get_available_replica_count_for_replica_sets}
use intuit_argo_rollouts_dem.Canary.Fenceposts.{OfPercent, max_unavailable}
use intuit_argo_rollouts_dem.Status.Phase.{is_fully_promoted}
use intuit_argo_rollouts_dem.Context.{RolloutContext, the_rollout, pointers}
use intuit_argo_rollouts_dem.Sync.{has_scale_down_deadline}
use intuit_argo_rollouts_dem.ScaleDown.{
  Cluster, Action, scale, Delayed, scale_down_delay_helper, is_replica_set_referenced,
}

-- The sets after the clean-up, the pods scaled down, the actions, and whether there was no error.
pub record Cleaned : Type 0 where
  pub sets : List ReplicaSet
  pub total : ℤ
  pub actions : List Action
  pub succeeds : Bool

abbrev keep : ReplicaSet → Cleaned → Cleaned
keep rs s = record s { sets = s.sets ++ (rs ∷ []) }

-- The update of a set to its available replicas.
cleaned : Cleaned → ReplicaSet → Option ReplicaSet → Cleaned
cleaned s rs none = record s { succeeds = false }
cleaned s rs (some updated) = record s {
  sets = s.sets ++ (updated ∷ []);
  total = add32 s.total (sub32 rs.replicas rs.available_replicas);
  actions = scale rs rs.available_replicas ∷ s.actions;
}

clean_one : Cluster → Cleaned → ReplicaSet → Cleaned
unfolding cleaned
clean_one cl s rs =
    if eqb_ℤ rs.replicas (pos 0)
    then keep rs s
    else (if eqb_ℤ rs.replicas rs.available_replicas
        then keep rs s
        else (if ltb_ℤ rs.replicas rs.available_replicas
            then record s { total = pos 0; succeeds = false }
            else cleaned s rs (cl.update (record rs { replicas = rs.available_replicas }))))

-- The loop, which returns at an error.
clean : Cluster → Cleaned → List ReplicaSet → Cleaned
unfolding clean_one
clean cl s [] = s
clean cl s (rs ∷ rss) =
    let next = clean_one cl s rs in
    let rest = clean cl next rss in if next.succeeds then rest else next

unfoldable pub cleanup_unhealthy_replicas : Cluster → List ReplicaSet → Cleaned
unfolding clean
cleanup_unhealthy_replicas cl rss =
    clean cl (record { sets = []; total = pos 0; actions = []; succeeds = true })
      (cl.oldest_first rss)

-- How many more pods may be scaled down, how many sets are annotated, how many pods have been
-- scaled down, and what has been asked for.
pub record State : Type 0 where
  pub max_scale_down : ℤ
  pub annotated : ℤ
  pub total : ℤ
  pub actions : List Action

-- What a turn of the loop does: it goes on, it breaks, or it returns an error.
pub data Turn : Type 0 where
  goes_on : State → Turn
  breaks : State → Turn
  fails : State → Turn

-- The API is asked for the desired replicas.
scaled : State → ReplicaSet → ℤ → Option ReplicaSet → Turn
scaled s rs desired none = fails s
scaled s rs desired (some updated) =
    let count = sub32 rs.replicas desired in
    goes_on (record s {
      max_scale_down = sub32 s.max_scale_down count;
      total = add32 s.total count;
      actions = scale rs desired ∷ s.actions;
    })

scale_to : Cluster → State → ReplicaSet → ℤ → Turn
unfolding scaled
scale_to cl s rs desired =
    if eqb_ℤ rs.replicas desired
    then goes_on s
    else scaled s rs desired (cl.update (record rs { replicas = desired }))

-- After scaleDownDelayHelper.
scale_delayed : Cluster → State → ReplicaSet → Delayed → Turn
unfolding scale_to
scale_delayed cl s rs d =
    let next = record s { annotated = d.annotated; actions = d.actions } in
    if d.succeeds then scale_to cl next rs d.desired else fails next

module _ (cl : Cluster) (now : Time) (ro : Rollout) (strategy : CanaryStrategy) where
  abbrev pub routed : Bool
  routed = is_some strategy.traffic_routing

  unfoldable pub canary_turn : State → ReplicaSet → Turn
  unfolding scale_to scale_delayed
  canary_turn s rs =
      if routed && is_replica_set_referenced cl ro rs
      then goes_on s
      else (if leb_ℤ s.max_scale_down (pos 0)
          then breaks s
          else (if eqb_ℤ rs.replicas (pos 0)
              then goes_on s
              else (if not routed
                  then scale_to cl s rs (
                      if ltb_ℤ s.max_scale_down rs.replicas
                      then sub32 rs.replicas s.max_scale_down
                      else pos 0)
                  else (if not (is_fully_promoted ro.status || has_scale_down_deadline (some rs))
                      then scale_to cl s rs (pos 0)
                      else (if strategy.dynamic_stable_scale
                          then scale_to cl s rs (pos 0)
                          else scale_delayed cl s rs (
                              scale_down_delay_helper cl now ro rs s.annotated rs.replicas
                                s.actions))))))

  -- The state after the loop, and whether there was no error.
  after_turn : Turn → (State → State × Bool) → State × Bool
  after_turn (goes_on s) continue = continue s
  after_turn (breaks s) continue = (s, true)
  after_turn (fails s) continue = (s, false)

  unfoldable pub scale_down_from : State → List ReplicaSet → State × Bool
  unfolding after_turn
  scale_down_from s [] = (s, true)
  scale_down_from s (rs ∷ rss) = after_turn (canary_turn s rs) (λ next. scale_down_from next rss)

-- For an ALB, whether the sets need the targets to be verified.
needs_verification : List ReplicaSet → Bool
needs_verification [] = false
needs_verification (rs ∷ rss) =
    (ltb_ℤ (pos 0) rs.replicas && not (has_scale_down_deadline (some rs))) || needs_verification rss

is_alb : CanaryStrategy → Bool
is_alb strategy = elim strategy.traffic_routing [ none ↦ false | some t ↦ t.alb ]

is_true : Option Bool → Bool
is_true none = false
is_true (some b) = b

-- Whether to proceed; the error, if any, is that of the verification.
unfoldable pub can_proceed_with_scale_down_annotation :
    Cluster → CanaryStrategy → List ReplicaSet → Bool
unfolding needs_verification is_alb is_true
can_proceed_with_scale_down_annotation cl strategy rss =
    not (is_alb strategy) || not (needs_verification rss) || is_true cl.targets_verified

-- The actions of the clean-up, and those of the loop with its result.
pub record ScaledDown : Type 0 where
  pub cleanup : List Action
  pub actions : List Action
  pub total : ℤ
  pub succeeds : Bool

-- An early return with a total, and without an action of the loop.
abbrev early : Bool → ℤ → (ok : Bool) → List Action × ℤ × Bool → List Action × ℤ × Bool
early b total ok rest = if b then ([], total, ok) else rest

module _ (of_percent : OfPercent) (cl : Cluster) (now : Time) where
  unfoldable pub max_scale_down_of : RolloutContext → ℤ
  max_scale_down_of c =
      let ro = the_rollout c in
      sub32 (get_available_replica_count_for_replica_sets (pointers c.all_rss))
        (sub32 (get_replicas_or_default ro.spec.replicas) (max_unavailable of_percent ro))

  unfoldable pub scale_down_old_replica_sets_for_canary :
      RolloutContext → CanaryStrategy → List ReplicaSet → ScaledDown
  scale_down_old_replica_sets_for_canary c strategy rss =
      let cleaned = cleanup_unhealthy_replicas cl rss in
      let sets = cl.latest_revision_first cleaned.sets in
      let (s, ok) =
        scale_down_from cl now (the_rollout c) strategy
          (record {
            max_scale_down = max_scale_down_of c;
            annotated = pos 0;
            total = cleaned.total;
            actions = [];
          })
          sets in
      let (actions, total, succeeds) = early (not cleaned.succeeds) cleaned.total true (
        early (leb_ℤ (max_scale_down_of c) (pos 0)) (pos 0) true (
          early (not (can_proceed_with_scale_down_annotation cl strategy sets)) (pos 0)
            (is_some cl.targets_verified) (s.actions, s.total, ok))) in
      record { cleanup = cleaned.actions; actions = actions; total = total; succeeds = succeeds }
