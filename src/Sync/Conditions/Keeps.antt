-- ===== src/Sync/Conditions/Keeps.antt =====
-- What calculateRolloutConditions leaves as it is.
use intuit_argo_rollouts_dem.Prelude.{◌≡◌, ◌∙◌, Bool, Option, none, some, List, [], ◌∷◌, arith}
use intuit_argo_rollouts_dem.Common.{Time, Library}
use intuit_argo_rollouts_dem.Rollout.{Rollout, RolloutStatus, RolloutCondition}
use intuit_argo_rollouts_dem.Status.Conditions.Forget.{
  forget, set_rollout_condition-forget, remove_rollout_condition-forget,
}
use intuit_argo_rollouts_dem.Context.{RolloutContext, the_rollout}
use intuit_argo_rollouts_dem.Sync.Conditions.{
  healthy_condition, aborted_condition, set_progress, timed_out, progress, progressing_condition,
  available_condition, failure_condition, completed_condition, calculate_rollout_conditions,
  get_replica_failures,
}

module _ (now : Time) (lib : Library) where
  healthy_condition-forget :
      (ro : Rollout) (status : RolloutStatus)
      → forget (healthy_condition now ro status).0 ≡ forget status
  unfolding healthy_condition
  healthy_condition-forget ro status = grind (arith, set_rollout_condition-forget)

  aborted_condition-forget :
      (c : RolloutContext) (status : RolloutStatus)
      → forget (aborted_condition now c status) ≡ forget status
  unfolding aborted_condition
  aborted_condition-forget c status = grind (arith, set_rollout_condition-forget)

  set_progress-forget :
      (status : RolloutStatus) (d : RolloutCondition) (o : Option RolloutCondition)
      → forget (set_progress now status d o) ≡ forget status
  unfolding set_progress
  set_progress-forget status d none = set_rollout_condition-forget status d
  set_progress-forget status d (some o) =
      grind (arith, set_rollout_condition-forget, remove_rollout_condition-forget)

  timed_out-forget :
      (c : RolloutContext) (status : RolloutStatus)
      → forget (timed_out now c status).1 ≡ forget status
  unfolding timed_out
  timed_out-forget c status = set_rollout_condition-forget status _

  progressing_condition-forget :
      (c : RolloutContext) (status : RolloutStatus) (b : Bool)
      → forget (progressing_condition now c status b).1 ≡ forget status
  unfolding progressing_condition progress
  progressing_condition-forget c status b =
      grind (arith, set_rollout_condition-forget, set_progress-forget, timed_out-forget)

  available_condition-forget :
      (c : RolloutContext) (status : RolloutStatus)
      → forget (available_condition now lib c status) ≡ forget status
  unfolding available_condition
  available_condition-forget c status = set_rollout_condition-forget status _

  failure_condition-forget :
      (cs : List RolloutCondition) (status : RolloutStatus)
      → forget (failure_condition now cs status) ≡ forget status
  unfolding failure_condition
  failure_condition-forget [] status = remove_rollout_condition-forget status _
  failure_condition-forget (c ∷ cs) status = set_rollout_condition-forget status c

  completed_condition-forget :
      (status : RolloutStatus) → forget (completed_condition now status) ≡ forget status
  unfolding completed_condition
  completed_condition-forget status = set_rollout_condition-forget status _

  -- Computing the conditions of a status changes nothing else of it.
  pub calculate_rollout_conditions-forget :
      (c : RolloutContext) (status : RolloutStatus)
      → forget (calculate_rollout_conditions now lib c status).1 ≡ forget status
  unfolding calculate_rollout_conditions
  calculate_rollout_conditions-forget c status =
      let health = healthy_condition now (the_rollout c) status in
      let aborted = aborted_condition now c health.0 in
      let next = progressing_condition now c aborted health.1 in
      let available = available_condition now lib c next.1 in
      let failed = failure_condition now (get_replica_failures c.all_rss c.new_rs) available in
      completed_condition-forget failed
      ∙ failure_condition-forget (get_replica_failures c.all_rss c.new_rs) available
      ∙ available_condition-forget c next.1
      ∙ progressing_condition-forget c aborted health.1
      ∙ aborted_condition-forget c health.0
      ∙ healthy_condition-forget (the_rollout c) status
