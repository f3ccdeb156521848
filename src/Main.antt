-- ===== src/Main.antt =====
-- src/main.rs: the two modes of the program. What the operator's controllers run is in `Controller`; the
-- runner reads its configuration and runs.
pub mod Kills
use ch_chaos.Base.{String, Option, List, [], Result, ok, err, fail, lookup, unwrap_or}
use ch_chaos.Types.{default_prometheus_url}
use ch_chaos.Errors.{RunnerError}
use ch_chaos.Json.{Value}
use ch_chaos.Runner.{RunnerConfig, Environ, from_env}
use ch_chaos.Runner.Scenarios.{Call, Effects}
use ch_chaos.Runner.Metrics.{Prometheus}
use ch_chaos.Runner.Run.{RunError, Finished, empty_metrics, run}

-- `Mode::Operator`: the URL that the controllers are started with
unfoldable pub prometheus_url : Environ → String
prometheus_url env = unwrap_or (lookup "PROMETHEUS_URL" env) default_prometheus_url

module _ {F : Type 0} (prom : Prometheus) (effects : Effects) (elapsed : List Call → F) where
  abbrev run_config : Result RunnerError RunnerConfig → Finished F
  run_config (ok config) = run prom effects elapsed config []
  run_config (err e) = record {
    outcome = fail (RunError.scenario e);
    metrics = empty_metrics;
    calls = [];
  }

  -- `Mode::Runner`
  unfoldable pub run_mode : (String → Option Value) → Environ → Finished F
  unfolding from_env run
  run_mode from_str env = run_config (from_env from_str env)
