-- ===== src/Runner/Run.antt =====
-- src/runner/entry.rs, `run`: one execution of the scenario, and the metrics that report it. The metrics
-- server (`Server`), which is started beside it, only reads them.
pub mod Reported
use ch_chaos.Base.{ℕ, String, List, [], ◌∷◌, Result, ok, err, Outcome, done, fail, panic, format}
use ch_chaos.Types.{scenario_name}
use ch_chaos.Errors.{RunnerError, runner_text}
use ch_chaos.Runner.{RunnerConfig}
use ch_chaos.Runner.Scenarios.{Call, Effects}
use ch_chaos.Runner.Execute.{execute_scenario}
use ch_chaos.Runner.Metrics.{
  RunnerMetrics, Prometheus, new_metrics, set_active, set_inactive, record_success, record_failure,
  set_targets, observe_duration,
}

-- `anyhow::Error` as `run` makes it: a text, or a `RunnerError`
pub data RunError : Type 0 where
  message : String → RunError
  scenario : RunnerError → RunError

-- what is left of a run: how it ended, the metrics, and the calls made
pub record Finished (F : Type 0) : Type 0 where
  pub outcome : Outcome RunError (Unit {0})
  pub metrics : RunnerMetrics F
  pub calls : List Call

-- `result.map(|_| ()).map_err(Into::into)`
abbrev pub dropped : Result RunnerError ℕ → Outcome RunError (Unit {0})
dropped (ok targets) = done tt
dropped (err e) = fail (RunError.scenario e)

module _ {F : Type 0} where
  -- the `match` on the result
  unfoldable pub report : String → Result RunnerError ℕ → RunnerMetrics F → RunnerMetrics F
  report name (ok targets) m = set_targets targets (record_success name m)
  report name (err e) m = record_failure name m

  -- `elapsed` is what the clock says after the calls. A panic leaves the metrics as they are.
  abbrev pub conclude :
      String → String → F → RunnerMetrics F → Outcome RunnerError ℕ → List Call → Finished F
  conclude id name elapsed m (done targets) calls = record {
    outcome = dropped (ok targets);
    metrics = set_inactive id name (report name (ok targets) (observe_duration elapsed m));
    calls = calls;
  }
  conclude id name elapsed m (fail e) calls = record {
    outcome = dropped (err e);
    metrics = set_inactive id name (report name (err e) (observe_duration elapsed m));
    calls = calls;
  }
  conclude id name elapsed m panic calls = record { outcome = panic; metrics = m; calls = calls }

  abbrev pub empty_metrics : RunnerMetrics F
  empty_metrics = record {
    injection_active = [];
    injection_total = [];
    targets_affected = 0;
    injection_duration = [];
  }

  module _ (prom : Prometheus) (effects : Effects) (elapsed : List Call → F) where
    abbrev pub run_with :
        RunnerConfig → List Call → Result RunnerError (RunnerMetrics F) → Finished F
    run_with config log (err e) = record {
      outcome = fail (message (format ("failed to create metrics: " ∷ runner_text e ∷ [])));
      metrics = empty_metrics;
      calls = log;
    }
    run_with config log (ok m) =
        let name = scenario_name config.scenario in
        let (result, calls) = execute_scenario effects config log in
        conclude config.experiment_id name (elapsed calls) (set_active config.experiment_id name m)
          result calls

    unfoldable pub run : RunnerConfig → List Call → Finished F
    run config log = run_with config log (new_metrics prom)
