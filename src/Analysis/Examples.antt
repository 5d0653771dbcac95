-- ===== src/Analysis/Examples.antt =====
-- Runs on which the theorems about analysis runs are applied.
use intuit_argo_rollouts_dem.Prelude.{
  ℕ, ◌≡◌, refl, Bool, true, false, Option, none, some, String, List, [], ◌∷◌, ℤ, pos, arith, All,
  Any, ◌⊎◌, eq_iff, int32, ◌+ℤ◌,
}
use mathlib.Core.Bool.{false≢true}
use intuit_argo_rollouts_dem.Analysis.Types.{
  AnalysisPhase, running, successful, failed, completed, IntOrString, from_int, from_string,
  Library, Time, Measurement, MetricResult, RunSummary, Metric, AnalysisRun, effective_count,
}
use intuit_argo_rollouts_dem.Analysis.Results.{
  is_terminating, get_result, set_result, metric_completed, last_measurement, is_worse,
}
use intuit_argo_rollouts_dem.Analysis.Assess.{
  assess_metric_status, assess_limits, count_reached, consecutive_error_limit, limit_or,
}
use intuit_argo_rollouts_dem.Analysis.Assess.Decision.{IsMeasured, assess_metric_status-terminates}
use intuit_argo_rollouts_dem.Analysis.Run.{assess_run_status}
use intuit_argo_rollouts_dem.Analysis.Run.Defs.{visit, visit_result, transition, start_run}
use intuit_argo_rollouts_dem.Analysis.Run.Outcome.{
  assess_run_status_worst, assess_run_status_source, assess_run_status_completes, AllCompleted,
  NoneWorse, Attained,
}
use intuit_argo_rollouts_dem.Analysis.Tasks.{waits_to_resume, generate_metric_tasks}
use intuit_argo_rollouts_dem.Analysis.Tasks.Due.{IsDue}
use intuit_argo_rollouts_dem.Analysis.Tasks.Selection.{
  AnyPair, AllPairs, IsScheduled, generate_metric_tasks-IsDue, generate_metric_tasks_complete,
}
use intuit_argo_rollouts_dem.Analysis.Measure.{record_measurement}
use intuit_argo_rollouts_dem.Analysis.Measure.Counters.{IsCounted, record_measurement-IsCounted}
use intuit_argo_rollouts_dem.Analysis.Schedule.{calculate_next_reconcile_time}
use intuit_argo_rollouts_dem.Analysis.Schedule.Due.{IsDueAt}
use intuit_argo_rollouts_dem.Analysis.Schedule.Earliest.{
  NoLater, calculate_next_reconcile_time-earliest,
}
use intuit_argo_rollouts_dem.Analysis.Collect.{
  GcAnswer, collected, metric_named, measurements_limit, collect_from, garbage_collect_measurements,
}
use intuit_argo_rollouts_dem.Analysis.Collect.Retention.{
  AllTrimmed, IsWithin, garbage_collect_measurements-AllTrimmed,
  garbage_collect_measurements-IsWithin,
}

-- Integers are as written, and no text is one; every duration is 30 seconds.
abbrev int_or_zero : IntOrString → ℤ
int_or_zero (from_int z) = z
int_or_zero (from_string s) = pos 0

abbrev library : Library
library = record {
  int_value = int_or_zero;
  parse_duration = λ s. some (pos 30_000_000_000);
  parse_int32 = λ s. none;
}

abbrev measured : AnalysisPhase → Measurement
measured p = record {
  phase = p;
  message = "";
  started_at = some (pos 10);
  finished_at = some (pos 20);
  resume_at = none;
}

abbrev metric : String → Metric
metric name = record {
  name = name;
  interval = "";
  initial_delay = "";
  count = none;
  failure_limit = none;
  inconclusive_limit = none;
  consecutive_error_limit = none;
}

abbrev good_result : MetricResult
good_result = record {
  name = "latency";
  phase = running;
  measurements = measured successful ∷ [];
  message = "";
  count = pos 1;
  successful = pos 1;
  failed = pos 0;
  inconclusive = pos 0;
  error = pos 0;
  consecutive_error = pos 0;
  dry_run = false;
}

abbrev bad_result : MetricResult
bad_result = record {
  name = "errors";
  phase = running;
  measurements = measured failed ∷ [];
  message = "";
  count = pos 1;
  successful = pos 0;
  failed = pos 1;
  inconclusive = pos 0;
  error = pos 0;
  consecutive_error = pos 0;
  dry_run = false;
}

abbrev zeros : RunSummary
zeros = record {
  count = pos 0;
  successful = pos 0;
  failed = pos 0;
  inconclusive = pos 0;
  error = pos 0;
}

abbrev metrics : List Metric
metrics = metric "latency" ∷ metric "errors" ∷ []

abbrev sample : AnalysisRun
sample = record {
  spec = record { metrics = metrics; terminate = false; ttl_strategy = none };
  status = record {
    phase = running;
    message = "";
    metric_results = good_result ∷ bad_result ∷ [];
    started_at = some (pos 5);
    run_summary = zeros;
    dry_run_summary = none;
    completed_at = none;
  };
}

abbrev live : String → Bool
live name = false

abbrev after : AnalysisRun × AnalysisPhase × String
after = assess_run_status library live (pos 100) sample metrics

-- Its line opens what a run of the assessment computes with.
evaluated : AnalysisRun × AnalysisPhase × String
unfolding assess_run_status visit visit_result transition start_run is_terminating get_result
    set_result last_measurement assess_metric_status assess_limits count_reached
    consecutive_error_limit limit_or int32 ◌+ℤ◌ effective_count is_worse
evaluated = after

after_fails : after.1 ≡ failed
unfolding evaluated
after_fails = refl

after_AllCompleted : AllCompleted after.0 metrics
unfolding evaluated completed
after_AllCompleted = (refl, (refl, tt))

assess_run_status_worst_example :
    AllCompleted after.0 metrics × NoneWorse live after.0 after.1 metrics
assess_run_status_worst_example =
    assess_run_status_worst library live (pos 100) sample metrics (unfold evaluated in refl)
      (unfold evaluated completed in refl)

assess_run_status_source_example : Attained live after.0 after.1 metrics
assess_run_status_source_example =
    assess_run_status_source library live (pos 100) sample metrics (unfold evaluated in refl)

assess_run_status_completes_example : completed after.1 ≡ true
assess_run_status_completes_example =
    assess_run_status_completes library live (pos 100) sample metrics
      (((λ e. false≢true ((eq_iff "errors" "latency").1 e)), tt), (tt, tt)) (λ e. cc)
      after_AllCompleted

assess_metric_status-terminates_example :
    (completed (assess_metric_status library (metric "errors") bad_result true) ≡ true)
    ⊎ (IsMeasured library (metric "errors") bad_result false
        × (assess_metric_status library (metric "errors") bad_result true ≡ running))
assess_metric_status-terminates_example =
    assess_metric_status-terminates library (metric "errors") bad_result

generate_metric_tasks-IsDue_example :
    All
      (λ t.
        AnyPair library
          (pos 100)
          sample
          (λ s m. (t.metric ≡ s) × IsDue library (pos 100) sample m t.incomplete_measurement)
          metrics
          metrics)
      (generate_metric_tasks library (pos 100) sample metrics)
generate_metric_tasks-IsDue_example = generate_metric_tasks-IsDue library (pos 100) sample metrics

-- A measurement of the second metric that has no end yet.
abbrev flying : Measurement
flying = record (measured running) { finished_at = none }

abbrev in_flight : AnalysisRun
in_flight = record sample {
  status = record sample.status {
    metric_results = good_result ∷ record bad_result { measurements = flying ∷ [] } ∷ [];
  };
}

generate_metric_tasks_complete_example :
    AllPairs library
      (pos 100)
      in_flight
      (λ s m.
        (x : Option Measurement)
        → IsDue library (pos 100) in_flight m x
        → IsScheduled library
            (pos 100)
            in_flight
            (generate_metric_tasks library (pos 100) in_flight metrics)
            s
            x)
      metrics
      metrics
generate_metric_tasks_complete_example =
    generate_metric_tasks_complete library (pos 100) in_flight metrics

-- The second metric's measurement is due.
flying-IsDue : IsDue library (pos 100) in_flight (metric "errors") (some flying)
unfolding metric_completed get_result completed waits_to_resume last_measurement
flying-IsDue = (refl, refl, refl, refl)

record_measurement-IsCounted_example :
    IsCounted (record_measurement (λ s. s) (pos 100) none (measured failed) bad_result)
record_measurement-IsCounted_example =
    record_measurement-IsCounted (λ s. s) (pos 100) none (measured failed) bad_result
      (unfold ◌+ℤ◌ in
        record {
          total = refl;
          successful_nonneg = omega arith;
          failed_nonneg = omega arith;
          inconclusive_nonneg = omega arith;
          error_nonneg = omega arith;
          consecutive = omega arith;
        })
      (record { room = omega arith; error_room = omega arith })

calculate_next_reconcile_time-earliest_example :
    let next = calculate_next_reconcile_time library (pos 100) in_flight metrics in
    All (λ m. (t : Time) → IsDueAt library (pos 100) in_flight m t → NoLater next (some t)) metrics
    × ((t : Time) → next ≡ some t → Any (λ m. IsDueAt library (pos 100) in_flight m t) metrics)
calculate_next_reconcile_time-earliest_example =
    calculate_next_reconcile_time-earliest library (pos 100) in_flight metrics

-- Two measurements and a limit of one.
abbrev long_run : AnalysisRun
long_run = record sample {
  status = record sample.status {
    metric_results =
        record good_result { measurements = measured failed ∷ measured successful ∷ [] } ∷ [];
  };
}

abbrev collects : Metric → ℕ → GcAnswer
collects m n = collected

abbrev no_retention : String → Option ℤ
no_retention name = none

garbage_collect_measurements-AllTrimmed_example :
    AllTrimmed long_run.status.metric_results
      (garbage_collect_measurements collects no_retention metrics 1
        long_run).0.status.metric_results
garbage_collect_measurements-AllTrimmed_example =
    garbage_collect_measurements-AllTrimmed collects no_retention metrics 1 long_run (omega arith)

garbage_collect_measurements-IsWithin_example :
    All
      (IsWithin collects no_retention metrics 1)
      (garbage_collect_measurements collects no_retention metrics 1
        long_run).0.status.metric_results
garbage_collect_measurements-IsWithin_example =
    garbage_collect_measurements-IsWithin collects no_retention metrics 1 long_run
      (unfold garbage_collect_measurements collect_from measurements_limit metric_named in refl)
