-- ===== src/Rollout/Defaults.antt =====
-- utils/defaults/defaults.go, the functions on a rollout, and MaxTrafficWeight of utils/weightutil.
use intuit_argo_rollouts_dem.Prelude.{
  Bool, true, false, Option, none, some, ℤ, pos, ◌*ℤ◌, eqb_ℤ, if◌then◌else◌,
}
use intuit_argo_rollouts_dem.Common.{Duration, IntOrString, from_string}
use intuit_argo_rollouts_dem.Rollout.{
  Rollout, CanaryStrategy, BlueGreenStrategy, RolloutTrafficRouting,
}

abbrev pub or_default : ℤ → Option ℤ → ℤ
or_default d none = d
or_default d (some n) = n

unfoldable pub get_replicas_or_default : Option ℤ → ℤ
get_replicas_or_default replicas = or_default (pos 1) replicas

surge_of : Option CanaryStrategy → Option IntOrString
surge_of none = none
surge_of (some c) = c.max_surge

or_else : Option IntOrString → Option IntOrString → Option IntOrString
or_else none y = y
or_else (some x) y = some x

or_25 : Option IntOrString → IntOrString
or_25 none = from_string "25"
or_25 (some x) = x

unfoldable pub get_max_surge_or_default : Rollout → IntOrString
unfolding surge_of or_25
get_max_surge_or_default ro = or_25 (surge_of ro.spec.canary)

blue_green_unavailable : Option BlueGreenStrategy → Option IntOrString
blue_green_unavailable none = none
blue_green_unavailable (some b) = b.max_unavailable

canary_unavailable : Option CanaryStrategy → Option IntOrString
canary_unavailable none = none
canary_unavailable (some c) = c.max_unavailable

unfoldable pub get_max_unavailable_or_default : Rollout → IntOrString
unfolding blue_green_unavailable canary_unavailable or_else or_25
get_max_unavailable_or_default ro =
    or_25 (or_else (blue_green_unavailable ro.spec.blue_green) (canary_unavailable ro.spec.canary))

abbrev second : ℤ
second = pos 1_000_000_000

-- The delay of a strategy that was found: absent where it is set to 0.
set_delay : Option ℤ → Option Duration × Bool
set_delay none = (some (pos 30 *ℤ second), false)
set_delay (some n) = if eqb_ℤ n (pos 0) then (none, true) else (some (n *ℤ second), true)

canary_delay : CanaryStrategy → Option RolloutTrafficRouting → Option Duration × Bool
canary_delay c none = (some (pos 0 *ℤ second), false)
canary_delay c (some t) = set_delay c.abort_scale_down_delay_seconds

delay_of : Option BlueGreenStrategy → Option CanaryStrategy → Option Duration × Bool
delay_of (some b) _ = set_delay b.abort_scale_down_delay_seconds
delay_of none (some c) = canary_delay c c.traffic_routing
delay_of none none = (some (pos 0 *ℤ second), false)

unfoldable pub get_abort_scale_down_delay_seconds_or_default : Rollout → Option Duration × Bool
unfolding delay_of canary_delay set_delay
get_abort_scale_down_delay_seconds_or_default ro = delay_of ro.spec.blue_green ro.spec.canary

routed_weight : Option RolloutTrafficRouting → ℤ
routed_weight none = pos 100
routed_weight (some t) = or_default (pos 100) t.max_traffic_weight

canary_weight : Option CanaryStrategy → ℤ
canary_weight none = pos 100
canary_weight (some c) = routed_weight c.traffic_routing

unfoldable pub max_traffic_weight : Rollout → ℤ
unfolding canary_weight routed_weight
max_traffic_weight ro = canary_weight ro.spec.canary

unfoldable pub get_progress_deadline_seconds_or_default : Rollout → ℤ
get_progress_deadline_seconds_or_default ro = or_default (pos 600) ro.spec.progress_deadline_seconds

-- The delay of the blue-green strategy, and in its place that of a canary with traffic routing.
blue_green_delay : Option BlueGreenStrategy → ℤ
blue_green_delay none = pos 0
blue_green_delay (some b) = or_default (pos 30) b.scale_down_delay_seconds

routed_delay : Option RolloutTrafficRouting → Option ℤ → ℤ → ℤ
routed_delay none own before = before
routed_delay (some t) own before = or_default (pos 30) own

strategy_delay : Option CanaryStrategy → ℤ → ℤ
strategy_delay none before = before
strategy_delay (some c) before = routed_delay c.traffic_routing c.scale_down_delay_seconds before

unfoldable pub get_scale_down_delay_seconds_or_default : Rollout → Duration
unfolding blue_green_delay strategy_delay routed_delay
get_scale_down_delay_seconds_or_default ro =
    strategy_delay ro.spec.canary (blue_green_delay ro.spec.blue_green) *ℤ second
