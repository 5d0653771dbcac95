-- ===== src/Status/Conditions.antt =====
-- utils/conditions/conditions.go: the list of conditions of a rollout.
pub mod Laws
pub mod Forget
use intuit_argo_rollouts_dem.Prelude.{
  String, Bool, true, false, ◌&&◌, Option, none, some, List, [], ◌∷◌, ◌++◌, ◌==◌, ℕ, str_eq,
  if◌then◌else◌,
}
use intuit_argo_rollouts_dem.Common.{Time}
use intuit_argo_rollouts_dem.Rollout.{
  RolloutConditionType, ConditionStatus, condition_true, condition_false, condition_unknown,
  RolloutCondition, RolloutStatus,
}

abbrev pub status_code : ConditionStatus → ℕ
status_code condition_true = 0
status_code condition_false = 1
status_code condition_unknown = 2

abbrev pub same_status : ConditionStatus → ConditionStatus → Bool
same_status a b = status_code a == status_code b

unfoldable pub new_rollout_condition :
    (now : Time)
    → RolloutConditionType
    → ConditionStatus
    → (reason message : String) → RolloutCondition
new_rollout_condition now kind status reason message = record {
  kind = kind;
  status = status;
  last_update_time = now;
  last_transition_time = now;
  reason = reason;
  message = message;
}

-- The loop of GetRolloutCondition.
unfoldable pub find_kind : RolloutConditionType → List RolloutCondition → Option RolloutCondition
find_kind kind [] = none
find_kind kind (c ∷ cs) = if str_eq c.kind kind then some c else find_kind kind cs

unfoldable pub get_rollout_condition :
    RolloutStatus → RolloutConditionType → Option RolloutCondition
get_rollout_condition status kind = find_kind kind status.conditions

unfoldable pub filter_out_condition :
    List RolloutCondition → RolloutConditionType → List RolloutCondition
filter_out_condition [] kind = []
filter_out_condition (c ∷ cs) kind =
    let rest = filter_out_condition cs kind in if str_eq c.kind kind then rest else c ∷ rest

unfoldable pub remove_rollout_condition : RolloutStatus → RolloutConditionType → RolloutStatus
remove_rollout_condition status kind = record status {
  conditions = filter_out_condition status.conditions kind;
}

-- The condition with its transition time, from the condition of its type before.
put : RolloutStatus → RolloutCondition → RolloutStatus
put status condition = record status {
  conditions = filter_out_condition status.conditions condition.kind ++ (condition ∷ []);
}

set_over : RolloutStatus → RolloutCondition → Option RolloutCondition → RolloutStatus × Bool
unfolding put
set_over status condition none = (put status condition, true)
set_over status condition (some current) =
    if same_status current.status condition.status && str_eq current.reason condition.reason
    then (status, false)
    else (
      put status (
          if same_status current.status condition.status
          then record condition { last_transition_time = current.last_transition_time }
          else condition),
      true,
    )

-- The status after the update, and whether the condition was updated.
unfoldable pub set_rollout_condition : RolloutStatus → RolloutCondition → RolloutStatus × Bool
unfolding set_over
set_rollout_condition status condition =
    set_over status condition (get_rollout_condition status condition.kind)
