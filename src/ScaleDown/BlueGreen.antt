-- ===== src/ScaleDown/BlueGreen.antt =====
-- Scaling down the old ReplicaSets of a blue-green rollout: scaleDownOldReplicaSetsForBlueGreen of
-- rollout/bluegreen.go, and skipPostPromotionAnalysisRun of rollout/analysis.go.
pub mod References
use intuit_argo_rollouts_dem.Prelude.{
  String, Bool, true, false, not, ◌&&◌, ◌||◌, Option, none, some, List, [], ◌∷◌, ℤ, pos, eqb_ℤ,
  str_eq, is_some, if◌then◌else◌,
}
use intuit_argo_rollouts_dem.Common.{Time, Library}
use intuit_argo_rollouts_dem.Rollout.{Rollout, BlueGreenStrategy, inconclusive_analysis}
use intuit_argo_rollouts_dem.Rollout.Defaults.{get_replicas_or_default}
use intuit_argo_rollouts_dem.Canary.Types.{ReplicaSet}
use intuit_argo_rollouts_dem.Pause.{get_pause_condition}
use intuit_argo_rollouts_dem.Context.{RolloutContext, the_rollout}
use intuit_argo_rollouts_dem.Sync.{is_successful}
use intuit_argo_rollouts_dem.Sync.Conditions.{is_saturated}
use intuit_argo_rollouts_dem.ScaleDown.{
  Cluster, Action, scale, Delayed, scale_down_delay_helper, is_replica_set_referenced,
}

-- The number of annotated sets, whether a set has been scaled, and what has been asked for.
pub record State : Type 0 where
  pub annotated : ℤ
  pub has_scaled : Bool
  pub actions : List Action

pub data Turn : Type 0 where
  goes_on : State → Turn
  fails : State → Turn

scaled : State → ReplicaSet → ℤ → Option ReplicaSet → Turn
scaled s rs desired none = fails s
scaled s rs desired (some updated) =
    goes_on (record s { has_scaled = true; actions = scale rs desired ∷ s.actions })

after_delay : Cluster → State → ReplicaSet → Delayed → Turn
unfolding scaled
after_delay cl s rs d =
    let next = record s { annotated = d.annotated; actions = d.actions } in
    if not d.succeeds
    then fails next
    else (if eqb_ℤ rs.replicas d.desired
        then goes_on next
        else scaled next rs d.desired (cl.update (record rs { replicas = d.desired })))

module _ (cl : Cluster) (now : Time) (ro : Rollout) where
  unfoldable pub blue_green_turn : State → ReplicaSet → Turn
  unfolding after_delay
  blue_green_turn s rs =
      if is_replica_set_referenced cl ro rs
      then goes_on s
      else (if eqb_ℤ rs.replicas (pos 0)
          then goes_on s
          else after_delay cl s rs (
              scale_down_delay_helper cl now ro rs s.annotated
                (get_replicas_or_default ro.spec.replicas) s.actions))

  after_turn : Turn → (State → State × Bool) → State × Bool
  after_turn (goes_on s) continue = continue s
  after_turn (fails s) continue = (record s { has_scaled = false }, false)

  unfoldable pub scale_down_from : State → List ReplicaSet → State × Bool
  unfolding after_turn
  scale_down_from s [] = (s, true)
  scale_down_from s (rs ∷ rss) =
      after_turn (blue_green_turn s rs) (λ next. scale_down_from next rss)

hash_of : Option ReplicaSet → String
hash_of none = ""
hash_of (some rs) = rs.pod_hash

unfoldable pub skip_post_promotion_analysis_run :
    Time → Library → Rollout → Option ReplicaSet → Bool
unfolding hash_of
skip_post_promotion_analysis_run now lib ro new_rs =
    let current = hash_of new_rs in
    str_eq ro.status.stable_rs current
    || not (str_eq ro.status.blue_green.active_selector current)
    || str_eq current ""
    || not (is_saturated now lib ro new_rs)

-- Whether the post-promotion analysis still runs, without a delay of scaling down.
waits_for_analysis : Time → Library → RolloutContext → Option BlueGreenStrategy → Bool
waits_for_analysis now lib c none = false
waits_for_analysis now lib c (some b) =
    is_some b.post_promotion_analysis
    && not (is_some b.scale_down_delay_seconds)
    && not (skip_post_promotion_analysis_run now lib (the_rollout c) c.new_rs)
    && not (is_successful c.post_promotion_run)

-- The state, with what was asked for, and whether there was no error.
unfoldable pub scale_down_old_replica_sets_for_blue_green :
    Cluster → Time → Library → RolloutContext → List ReplicaSet → State × Bool
unfolding waits_for_analysis
scale_down_old_replica_sets_for_blue_green cl now lib c rss =
    let ro = the_rollout c in
    let start : State = record { annotated = pos 0; has_scaled = false; actions = [] } in
    if is_some (get_pause_condition ro inconclusive_analysis)
      || waits_for_analysis now lib c ro.spec.blue_green
    then (start, true)
    else scale_down_from cl now ro start (cl.latest_revision_first rss)
