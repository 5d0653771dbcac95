-- ===== src/Analysis/Tasks/Selection.antt =====
-- Which tasks are generated.
use intuit_argo_rollouts_dem.Prelude.{
  ◌≡◌, refl, Option, none, some, List, [], ◌∷◌, ◌⊎◌, inl, inr, All, Any, All-map, Option-cases,
}
use intuit_argo_rollouts_dem.Analysis.Types.{Library, Time, Measurement, Metric, AnalysisRun}
use intuit_argo_rollouts_dem.Analysis.Results.{is_terminating}
use intuit_argo_rollouts_dem.Analysis.Tasks.{
  MetricTask, add_task, task_for, tasks_for, generate_metric_tasks,
}
use intuit_argo_rollouts_dem.Analysis.Tasks.Due.{IsDue, IsTaskFor, task_for-IsDue}
use intuit_argo_rollouts_dem.Analysis.Tasks.Planned.{task_for-generated}

module _ (lib : Library) (now : Time) (run : AnalysisRun) where
  -- A metric of the run and its resolved form, at the same index of both lists.
  abbrev pub AnyPair : (Metric → Metric → Type 0) → List Metric → List Metric → Type 0
  AnyPair P (s ∷ ss) (m ∷ ms) = P s m ⊎ AnyPair P ss ms
  AnyPair P _ _ = ⊥

  abbrev pub AllPairs : (Metric → Metric → Type 0) → List Metric → List Metric → Type 0
  AllPairs P (s ∷ ss) (m ∷ ms) = P s m × AllPairs P ss ms
  AllPairs P _ _ = Unit

  tasks_for-IsDue :
      (specs metrics : List Metric)
      → All
          (λ t. AnyPair (λ s m. IsTaskFor lib now run s m t) specs metrics)
          (tasks_for lib now run (is_terminating run) specs metrics)
  unfolding tasks_for
  tasks_for-IsDue [] metrics = tt
  tasks_for-IsDue (s ∷ ss) [] = tt
  tasks_for-IsDue (s ∷ ss) (m ∷ ms) =
      let rest = All-map (λ t h. inr h) _ (tasks_for-IsDue ss ms) in
      elim (Option-cases (task_for lib now run (is_terminating run) s m)) [
        | inl e ↦ rw (e, add_task) rest
        | inr (t, e) ↦ rw (e, add_task) (inl (task_for-IsDue lib now run s m t e), rest)
      ]

  -- Every generated task is due, for the metric that it names: this metric has not completed, and
  -- the task either resumes its last measurement, which has not finished and is not waiting, or
  -- starts a new one, in a run that is not terminating. It starts the first one where the initial
  -- delay, if there is one, is over, and a further one where the last has finished, the interval
  -- has passed since then, and the measurements are not enough.
  pub generate_metric_tasks-IsDue :
      (metrics : List Metric)
      → All
          (λ t.
            AnyPair
              (λ s m. (t.metric ≡ s) × IsDue lib now run m t.incomplete_measurement)
              run.spec.metrics
              metrics)
          (generate_metric_tasks lib now run metrics)
  unfolding generate_metric_tasks
  generate_metric_tasks-IsDue metrics = tasks_for-IsDue run.spec.metrics metrics

  -- A task is among these.
  abbrev pub IsScheduled : List MetricTask → Metric → Option Measurement → Type 0
  IsScheduled ts s x = Any (λ t. t ≡ record { metric = s; incomplete_measurement = x }) ts

  later :
      (s : Metric) (x : Option Measurement) (ts : List MetricTask) (t : Option MetricTask)
      → IsScheduled ts s x
      → IsScheduled (add_task lib now run t ts) s x
  later s x ts none h = h
  later s x ts (some t) h = inr h

  AllPairs-map :
      {P Q : Metric → Metric → Type 0} (f : (s m : Metric) → P s m → Q s m)
      (specs metrics : List Metric)
      → AllPairs P specs metrics
      → AllPairs Q specs metrics
  AllPairs-map f [] metrics h = tt
  AllPairs-map f (s ∷ ss) [] h = tt
  AllPairs-map f (s ∷ ss) (m ∷ ms) (h, hs) = (f s m h, AllPairs-map f ss ms hs)

  tasks_for_complete :
      (specs metrics : List Metric)
      → AllPairs
          (λ s m.
            (x : Option Measurement)
            → IsDue lib now run m x
            → IsScheduled (tasks_for lib now run (is_terminating run) specs metrics) s x)
          specs
          metrics
  unfolding tasks_for
  tasks_for_complete [] metrics = tt
  tasks_for_complete (s ∷ ss) [] = tt
  tasks_for_complete (s ∷ ss) (m ∷ ms) = (
    λ x d. rw (task_for-generated lib now run s m x d, add_task) (inl refl),
    AllPairs-map (λ a b h x d. later a x _ (task_for lib now run (is_terminating run) s m) (h x d))
        ss ms (tasks_for_complete ss ms),
  )

  -- Everything that is due for a metric is generated, the end of a measurement in flight also in a
  -- terminating run.
  pub generate_metric_tasks_complete :
      (metrics : List Metric)
      → AllPairs
          (λ s m.
            (x : Option Measurement)
            → IsDue lib now run m x
            → IsScheduled (generate_metric_tasks lib now run metrics) s x)
          run.spec.metrics
          metrics
  unfolding generate_metric_tasks
  generate_metric_tasks_complete metrics = tasks_for_complete run.spec.metrics metrics
