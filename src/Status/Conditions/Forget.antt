-- ===== src/Status/Conditions/Forget.antt =====
-- Setting and removing a condition changes nothing else of a status.
use intuit_argo_rollouts_dem.Prelude.{◌≡◌, refl, Option, none, some, [], arith}
use intuit_argo_rollouts_dem.Rollout.{RolloutStatus, RolloutCondition, RolloutConditionType}
use intuit_argo_rollouts_dem.Status.Conditions.{
  put, set_over, set_rollout_condition, get_rollout_condition, remove_rollout_condition,
}

-- The status without its conditions.
abbrev pub forget : RolloutStatus → RolloutStatus
forget status = record status { conditions = [] }

set_over-forget :
    (status : RolloutStatus) (c : RolloutCondition) (o : Option RolloutCondition)
    → forget (set_over status c o).0 ≡ forget status
unfolding set_over put
set_over-forget status c none = refl
set_over-forget status c (some o) = ground arith

pub set_rollout_condition-forget :
    (status : RolloutStatus) (c : RolloutCondition)
    → forget (set_rollout_condition status c).0 ≡ forget status
unfolding set_rollout_condition
set_rollout_condition-forget status c =
    set_over-forget status c (get_rollout_condition status c.kind)

pub remove_rollout_condition-forget :
    (status : RolloutStatus) (k : RolloutConditionType)
    → forget (remove_rollout_condition status k) ≡ forget status
unfolding remove_rollout_condition
remove_rollout_condition-forget status k = refl
