-- ===== src/Sync/Conditions/Outcome.antt =====
-- What the conditions say of the new status.
use intuit_argo_rollouts_dem.Prelude.{
  ◌≡◌, sym, ap, ◌∙◌, Bool, not, ◌&&◌, some, String, str_eq, if◌then◌else◌,
}
use intuit_argo_rollouts_dem.Common.{Time, Library}
use intuit_argo_rollouts_dem.Rollout.{
  RolloutStatus, RolloutCondition, condition_true, condition_false,
}
use intuit_argo_rollouts_dem.Rollout.ConditionTypes
use intuit_argo_rollouts_dem.Status.Conditions.{get_rollout_condition, new_rollout_condition}
use intuit_argo_rollouts_dem.Status.Conditions.Laws.{set_rollout_condition-get}
use intuit_argo_rollouts_dem.Status.Conditions.Forget.{forget, set_rollout_condition-forget}
use intuit_argo_rollouts_dem.Status.Progress.{rollout_completed}
use intuit_argo_rollouts_dem.Context.{RolloutContext, the_rollout}
use intuit_argo_rollouts_dem.Sync.Conditions.{
  healthy_condition, aborted_condition, progressing_condition, available_condition,
  failure_condition, completed_condition, calculate_rollout_conditions, get_replica_failures,
}
use intuit_argo_rollouts_dem.Sync.Conditions.Keeps.{calculate_rollout_conditions-forget}

-- The condition of a type that is found has this status.
abbrev pub HasStatus : String → Bool → RolloutStatus → Type 0
HasStatus kind b status =
    (d : RolloutCondition) × (get_rollout_condition status kind ≡ some d)
    × (d.status ≡ (if b then condition_true else condition_false))

module _ (now : Time) (lib : Library) where
  completed_condition-HasStatus :
      (status : RolloutStatus)
      → HasStatus ConditionTypes.completed
          (rollout_completed status)
          (completed_condition now status)
  unfolding completed_condition new_rollout_condition
  completed_condition-HasStatus status =
      let ((d, e, k, r, t), rest) = set_rollout_condition-get status (
        new_rollout_condition now ConditionTypes.completed
          (if rollout_completed status then condition_true else condition_false) "RolloutCompleted"
          "RolloutCompleted") in
      (d, e, k)

  rollout_completed-forget :
      (s t : RolloutStatus) → forget s ≡ forget t → rollout_completed s ≡ rollout_completed t
  unfolding rollout_completed
  rollout_completed-forget s t h = ap (λ r. rollout_completed r) h

  -- The computed conditions have a Completed condition, which is true exactly where the stable
  -- ReplicaSet of the status is set and is the current one.
  pub calculate_rollout_conditions-HasStatus :
      (c : RolloutContext) (status : RolloutStatus)
      → HasStatus ConditionTypes.completed
          (not (str_eq status.stable_rs "") && str_eq status.stable_rs status.current_pod_hash)
          (calculate_rollout_conditions now lib c status).1
  unfolding calculate_rollout_conditions rollout_completed
  calculate_rollout_conditions-HasStatus c status =
      let health = healthy_condition now (the_rollout c) status in
      let next = progressing_condition now c (aborted_condition now c health.0) health.1 in
      let failed =
        failure_condition now (get_replica_failures c.all_rss c.new_rs)
          (available_condition now lib c next.1) in
      let (d, e, k) = completed_condition-HasStatus failed in
      (
        d,
        e,
        k
            ∙ ap (λ b. if b then condition_true else condition_false)
                (rollout_completed-forget failed status (
                  sym (set_rollout_condition-forget failed _)
                  ∙ calculate_rollout_conditions-forget now lib c status)),
      )
