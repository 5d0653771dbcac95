-- ===== src/ScaleDown.antt =====
-- rollout/replicaset.go: when an old ReplicaSet is scaled down, the deadlines of scaling down, and
-- which ReplicaSets are still referenced. What the code asks the API for is a list of actions, the
-- latest first.
pub mod Canary
pub mod BlueGreen
mod Examples
use intuit_argo_rollouts_dem.Prelude.{
  ℕ, ◌+◌, ◌-◌, String, Bool, true, false, not, ◌&&◌, ◌||◌, Option, none, some, List, [], ◌∷◌, ℤ,
  pos, pos_part, ◌-ℤ◌, add32, sub32, eqb_ℤ, ltb_ℤ, leb_ℤ, str_eq, is_some, if◌then◌else◌,
}
use intuit_argo_rollouts_dem.Common.{Time, Duration, after}
use intuit_argo_rollouts_dem.Rollout.{Rollout, CanaryStrategy, BlueGreenStrategy, TrafficWeights}
use intuit_argo_rollouts_dem.Rollout.Defaults.{
  get_scale_down_delay_seconds_or_default, get_abort_scale_down_delay_seconds_or_default,
}
use intuit_argo_rollouts_dem.Canary.Types.{ReplicaSet}
use intuit_argo_rollouts_dem.Pause.{is_aborted}
use intuit_argo_rollouts_dem.Context.{RolloutContext, the_rollout}
use intuit_argo_rollouts_dem.Sync.{has_scale_down_deadline}

-- What looking a service up gives: the hash that its selector has, nothing, or another error.
pub data Lookup : Type 0 where
  selects : String → Lookup
  not_found : Lookup
  lookup_failed : Lookup

-- From outside: the services; what an update of a ReplicaSet returns, nothing on an error, and
-- whether its annotation can be patched; `time.Parse` of RFC 3339; the two sorts of the code;
-- whether the targets of the stable service are verified, nothing on an error; and the resync
-- period.
pub record Cluster : Type 0 where
  pub service : String → Lookup
  pub update : ReplicaSet → Option ReplicaSet
  pub patches : ReplicaSet → Bool
  pub parse_time : String → Option Time
  pub oldest_first : List ReplicaSet → List ReplicaSet
  pub latest_revision_first : List ReplicaSet → List ReplicaSet
  pub targets_verified : Option Bool
  pub resync_period : Duration

pub data Action : Type 0 where
  scale : ReplicaSet → ℤ → Action
  add_deadline : ReplicaSet → Duration → Action
  remove_deadline : ReplicaSet → Action
  enqueue_after : Duration → Action

-- The actions after a call, and whether it succeeds.
abbrev pub Call : Type 0
Call = List Action × Bool

unfoldable pub remove_scale_down_delay : Cluster → ReplicaSet → List Action → Call
remove_scale_down_delay cl rs actions =
    if not (has_scale_down_deadline (some rs))
    then (actions, true)
    else (if cl.patches rs then (remove_deadline rs ∷ actions, true) else (actions, false))

unfoldable pub add_scale_down_delay : Cluster → ReplicaSet → Duration → List Action → Call
add_scale_down_delay cl rs delay actions =
    if eqb_ℤ delay (pos 0)
    then remove_scale_down_delay cl rs actions
    else (if cl.patches rs then (add_deadline rs delay ∷ actions, true) else (actions, false))

limit_of : Option ℤ → Option ℤ → ℤ
limit_of (some n) m = n
limit_of none (some m) = m
limit_of none none = pos 2147483647

blue_green_limit : Option BlueGreenStrategy → Option ℤ
blue_green_limit none = none
blue_green_limit (some b) = b.scale_down_delay_revision_limit

canary_limit : Option CanaryStrategy → Option ℤ
canary_limit none = none
canary_limit (some c) = c.scale_down_delay_revision_limit

unfoldable pub get_scale_down_revision_limit : Rollout → ℤ
unfolding limit_of blue_green_limit canary_limit
get_scale_down_revision_limit ro =
    limit_of (blue_green_limit ro.spec.blue_green) (canary_limit ro.spec.canary)

-- GetTimeRemainingBeforeScaleDownDeadline: nothing where the deadline cannot be read or is over.
time_left : Cluster → (now : Time) → Option String → Option Duration
time_left cl now none = none
time_left cl now (some text) = elim (cl.parse_time text) [
  | none ↦ none
  | some t ↦ if after t now then some (t -ℤ now) else none
]

unfoldable pub get_time_remaining_before_scale_down_deadline :
    Cluster → Time → ReplicaSet → Option Duration
unfolding time_left
get_time_remaining_before_scale_down_deadline cl now rs =
    if has_scale_down_deadline (some rs) then time_left cl now rs.scale_down_deadline else none

-- The number of annotated sets, the desired replicas, and the call.
pub record Delayed : Type 0 where
  pub annotated : ℤ
  pub desired : ℤ
  pub actions : List Action
  pub succeeds : Bool

abbrev to_zero : ℤ → List Action → Delayed
to_zero annotated actions = record {
  annotated = annotated;
  desired = pos 0;
  actions = actions;
  succeeds = true;
}

delayed_by : Cluster → (annotated replicas : ℤ) → List Action → Option Duration → Delayed
delayed_by cl annotated replicas actions none = to_zero annotated actions
delayed_by cl annotated replicas actions (some left) = record {
  annotated = annotated;
  desired = replicas;
  actions = if ltb_ℤ left cl.resync_period then enqueue_after left ∷ actions else actions;
  succeeds = true;
}

-- After the deadline was asked for.
with_deadline : (annotated replicas : ℤ) → Duration → Call → Delayed
with_deadline annotated replicas delay (actions, ok) = record {
  annotated = annotated;
  desired = replicas;
  actions = if ok then enqueue_after delay ∷ actions else actions;
  succeeds = ok;
}

unfoldable pub scale_down_delay_helper :
    Cluster → Time → Rollout → ReplicaSet → (annotated replicas : ℤ) → List Action → Delayed
unfolding delayed_by with_deadline
scale_down_delay_helper cl now ro rs annotated replicas actions =
    let limit = get_scale_down_revision_limit ro in
    let delay = get_scale_down_delay_seconds_or_default ro in
    let next = add32 annotated (pos 1) in
    if has_scale_down_deadline (some rs)
    then (if ltb_ℤ limit next
        then to_zero next actions
        else delayed_by cl next replicas actions
            (get_time_remaining_before_scale_down_deadline cl now rs))
    else (if ltb_ℤ (pos 0) rs.replicas && ltb_ℤ annotated limit
        then with_deadline next rs.replicas delay (add_scale_down_delay cl rs delay actions)
        else to_zero annotated actions)

weights_refer : String → Option TrafficWeights → Bool
weights_refer hash none = false
weights_refer hash (some w) =
    str_eq w.canary.pod_template_hash hash || str_eq w.stable.pod_template_hash hash

-- An error of the lookup counts as a reference.
refers : String → Lookup → Bool
refers hash (selects label) = str_eq label hash
refers hash not_found = false
refers hash lookup_failed = true

service_refers : Cluster → String → (name : String) → Bool
unfolding refers
service_refers cl hash name = not (str_eq name "") && refers hash (cl.service name)

-- Without a canary and without a blue-green strategy the source dereferences a nil pointer; the
-- validation excludes it.
services_refer : Cluster → String → Option CanaryStrategy → Option BlueGreenStrategy → Bool
unfolding service_refers
services_refer cl hash (some c) b =
    service_refers cl hash c.canary_service || service_refers cl hash c.stable_service
services_refer cl hash none (some b) =
    service_refers cl hash b.active_service || service_refers cl hash b.preview_service
services_refer cl hash none none = false

unfoldable pub is_replica_set_referenced : Cluster → Rollout → ReplicaSet → Bool
unfolding weights_refer services_refer
is_replica_set_referenced cl ro rs =
    let hash = rs.pod_hash in
    let status = ro.status in
    not (str_eq hash "")
    && (str_eq status.stable_rs hash
        || str_eq status.current_pod_hash hash
        || str_eq status.blue_green.active_selector hash
        || str_eq status.blue_green.preview_selector hash
        || weights_refer hash status.canary.weights
        || services_refer cl hash ro.spec.canary ro.spec.blue_green)

is_unrouted : Option CanaryStrategy → Bool
is_unrouted none = false
is_unrouted (some c) = not (is_some c.traffic_routing)

is_dynamic : Option CanaryStrategy → Bool
is_dynamic none = false
is_dynamic (some c) = c.dynamic_stable_scale

unfoldable pub should_delay_scale_down_on_abort : RolloutContext → Bool
unfolding is_unrouted is_dynamic
should_delay_scale_down_on_abort c =
    let ro = the_rollout c in
    let (delay, was_set) = get_abort_scale_down_delay_seconds_or_default ro in
    is_aborted c.pause
    && is_some c.stable_rs
    && not (is_unrouted ro.spec.canary)
    && is_some delay
    && (not (is_dynamic ro.spec.canary) || was_set)
