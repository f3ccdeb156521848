-- ===== src/Runner/Environment.antt =====
-- The environment of a runner, from `runner_env_vars` (src/operator/job_builder.rs) to `from_env`
-- (src/runner/entry.rs).
use ch_chaos.Base.{
  ℕ, ◌^◌, ◌<◌, String, ◌≡◌, refl, Option, none, some, List, [], ◌∷◌, ok, unwrap_or, and_then,
}
use ch_chaos.Base.Numerals.{parse-decimal}
use ch_chaos.Types.{
  ScenarioType, pod_killer, cpu_stress, network_delay, edge_delay, edge_abort, scenario_name,
}
use ch_chaos.Json.{Value, object}
use ch_chaos.Objects.{EnvVar}
use ch_chaos.JobBuilder.{env_var, runner_env_vars}
use ch_chaos.Runner.{Environ, parse_scenario, from_env}

-- the environment that Kubernetes makes of the variables of a container
abbrev pub environ_of : List EnvVar → Environ
environ_of [] = []
environ_of (v ∷ vs) = (v.name, unwrap_or v.value "") ∷ environ_of vs

parse_scenario-scenario_name : (s : ScenarioType) → parse_scenario (scenario_name s) ≡ some s
unfolding parse_scenario
parse_scenario-scenario_name pod_killer = refl
parse_scenario-scenario_name cpu_stress = refl
parse_scenario-scenario_name network_delay = refl
parse_scenario-scenario_name edge_delay = refl
parse_scenario-scenario_name edge_abort = refl

-- The runner's configuration, read from the variables that the operator sets, is the experiment's id,
-- its scenario, its duration where this is a `u64`, and its parameters as they are read from their
-- text, or none where there is no such text. The port of the metrics is always 9090.
pub from_env-runner_env_vars :
    (from_str : String → Option Value) (experiment_id : String) (scenario : ScenarioType)
    (duration : ℕ) (parameters : Option String)
    → duration < 2 ^ 64
    → from_env from_str (environ_of (runner_env_vars experiment_id scenario duration parameters))
      ≡ ok (record {
        experiment_id = experiment_id;
        scenario = scenario;
        duration = duration;
        parameters = unwrap_or (and_then parameters from_str) (object []);
        metrics_port = 9090;
      })
unfolding from_env runner_env_vars env_var
from_env-runner_env_vars from_str experiment_id scenario duration none small =
    rw (parse_scenario-scenario_name scenario, parse-decimal duration small) refl
from_env-runner_env_vars from_str experiment_id scenario duration (some p) small =
    rw (parse_scenario-scenario_name scenario, parse-decimal duration small) refl
