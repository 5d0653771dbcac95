-- ===== src/Context.antt =====
-- rollout/context.go: what a reconciliation works on. The rollout is that of the pause context.
use intuit_argo_rollouts_dem.Prelude.{ℤ, String, Bool, Option, none, some, List, map}
use intuit_argo_rollouts_dem.Rollout.{Rollout, RolloutStatus}
use intuit_argo_rollouts_dem.Analysis.Types.{AnalysisPhase}
use intuit_argo_rollouts_dem.Canary.Types.{ReplicaSet}
use intuit_argo_rollouts_dem.Pause.{PauseContext}
use intuit_argo_rollouts_dem.Plugins.{StepPluginContext}

-- Of the current experiment and the analysis runs their phases; `targets_verified` may be nil. From the
-- functions that the model does not follow: whether the validation finds no error, the hash of the pod
-- template, the hash of the steps, the revision, and whether the workload can be scaled down;
-- `filter_active` is `controller.FilterActiveReplicaSets` of Kubernetes.
pub record RolloutContext : Type 0 where
  pub pause : PauseContext
  pub new_rs : Option ReplicaSet
  pub stable_rs : Option ReplicaSet
  pub all_rss : List ReplicaSet
  pub other_rss : List ReplicaSet
  pub new_status : RolloutStatus
  pub current_ex : Option AnalysisPhase
  pub canary_step_run : Option AnalysisPhase
  pub pre_promotion_run : Option AnalysisPhase
  pub post_promotion_run : Option AnalysisPhase
  pub targets_verified : Option Bool
  pub plugins : StepPluginContext
  pub is_valid : Bool
  pub template_hash : String
  pub step_hash : String
  pub revision : ℤ
  pub scales_workload : Bool
  pub filter_active : List ReplicaSet → List ReplicaSet

abbrev pub the_rollout : RolloutContext → Rollout
the_rollout c = c.pause.rollout

-- A list of ReplicaSets as a list of pointers.
abbrev pub pointers : List ReplicaSet → List (Option ReplicaSet)
pointers rss = map some rss

unfoldable pub are_targets_verified : RolloutContext → Bool
are_targets_verified c = elim c.targets_verified [ none ↦ Bool.true | some b ↦ b ]
