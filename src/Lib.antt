-- ===== src/Lib.antt =====
-- The core of Argo Rollouts: how an analysis run is measured and judged, how a rollout pauses, aborts, steps
-- forward and is promoted, how many replicas the canary and the stable ReplicaSet get, when old
-- ReplicaSets are scaled down, and what the status of a rollout says.
--
-- Parts, with the paths of the code from the root of the repository:
--
--   Analysis    analysis/analysis.go and utils/analysis/helpers.go, with the types of
--               pkg/apis/rollouts/v1alpha1/analysis_types.go. A reconciliation schedules the due
--               measurements (Tasks: generateMetricTasks), takes them (Measure: runMeasurements), judges
--               every metric (Assess: assessMetricStatus) and the run (Run: assessRunStatus), finds the
--               time of the next one (Schedule: calculateNextReconcileTime) and drops old measurements
--               (Collect: garbageCollectMeasurements). The run is passed through these functions; what
--               the code mutates through a pointer is in the result.
--   Rollout     the fields of the rollout resource that are read, pkg/apis/rollouts/v1alpha1/types.go,
--               and their defaults, utils/defaults/defaults.go and utils/weightutil.
--   Pause       rollout/pause.go: the context that gathers pauses and aborts during a reconciliation,
--               and the status that it computes. An inconclusive analysis run adds a pause reason, a
--               failed one an abort; both come through this context.
--   Canary      utils/replicaset/canary.go and the sums and limits of utils/replicaset/replicaset.go.
--               Steps: the current step and weight. Approximate: a weight as two counts. Routed: the
--               counts with a traffic router. Basic: the counts without one, by scaling up, then down.
--               ReplicaSets and Fenceposts: the sums over ReplicaSets, the surge and unavailability.
--               Pausing: reconcileCanaryPause of rollout/canary.go, where the steps meet the pause context.
--   Plugins     rollout/stepplugin.go: the reconciliation of step plugins at an abort, a full promotion and a
--               step. Statuses: the list of their statuses. A plugin and its resolver are parameters, as
--               the interfaces StepPlugin and Resolver of rollout/steps/plugin are; none is a panic.
--   Status      Conditions and Progress: utils/conditions/conditions.go. Phase: the phase of a rollout,
--               utils/rollout/rolloututil.go.
--   Context     rollout/context.go: what a reconciliation works on. The rollout is that of the pause
--               context; experiments and analysis runs are their phases.
--   Sync        rollout/sync.go: the base of the new status, its reset, the rollback window and the
--               promotion. Conditions: calculateRolloutConditions. Canary: completedCurrentCanaryStep and
--               syncRolloutStatusCanary of rollout/canary.go, with the status that persistRolloutStatus
--               sends. Moves is the step relation of the step index, by the situation of a reconciliation.
--   ScaleDown   rollout/replicaset.go: the deadlines of scaling down and the references to a ReplicaSet.
--               Canary: cleanupUnhealthyReplicas and scaleDownOldReplicaSetsForCanary. BlueGreen:
--               scaleDownOldReplicaSetsForBlueGreen. What is asked of the API is a list of actions.
--   BlueGreen   rollout/bluegreen.go: the pause, the fast track, the check point and the status, and
--               NewRSNewReplicas of utils/replicaset/replicaset.go.
--   Traffic     rollout/trafficrouting.go: the weight and the hash that reconcileTrafficRouting asks a
--               router for, and the weights that it records.
--   Restart     rollout/restart.go: the restart of pods, its budget and its evictions. The pods that the
--               API lists and its answers to evictions are arguments.
--   Prelude     integers with Go's int32 wrap-around, lists, text and Boolean tests; Common has times and
--               the libraries below.
--
-- A pointer that may be nil is an Option, a slice of pointers a list of options, and a loop is recursion on
-- its list, so that no fuel is needed. The clock is an argument, and so is each library the code calls:
-- `Common.Library` for numbers and durations in text, `OfPercent` for intstr.GetValueFromIntOrPercent,
-- `Float64` for floating point, of which `IsExact` states the rounding that the code relies on, where the
-- result is in the range of an int32; and `Provider` for the metric providers. The goroutines of runMeasurements hold a lock around
-- their result, and are modelled as one order of tasks.
--
-- The context of a reconciliation also holds what comes from code that the model does not follow: the
-- hashes of the pod template and of the steps, the revision, whether the validation finds an error, and
-- Kubernetes' filter of active ReplicaSets. `Cluster` has the answers of the API, the services, the parser
-- of times and the two sorts of ReplicaSets.
--
-- Not modelled: the controllers around this core (work queues, informers, the creation of ReplicaSets, the
-- calls of the Kubernetes API), reconcileNewReplicaSet, checkPausedConditions, experiments, the
-- creation of analysis runs, the routers of traffic, the implementation of step plugins, validation,
-- metric providers, the command line and the generated clients. Events and logs are left out throughout.
pub mod Analysis
pub mod BlueGreen
pub mod Canary
pub mod Common
pub mod Context
pub mod Pause
pub mod Plugins
pub mod Prelude
pub mod Restart
pub mod Rollout
pub mod ScaleDown
pub mod Status
pub mod Sync
pub mod Traffic
