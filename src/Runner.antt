-- ===== src/Runner.antt =====
-- src/runner/entry.rs: the configuration that the runner reads from its environment.
pub mod Environment
pub mod Scenarios
pub mod Restored
pub mod Execute
pub mod Targets
pub mod Metrics
pub mod Pods
pub mod Real
pub mod Server
pub mod Run
use ch_chaos.Base.{
  ℕ, ◌^◌, String, Option, none, some, List, [], ◌∷◌, Result, ok, err, ltb, if◌then◌else◌, unwrap_or,
  and_then, ok_or, format, lookup, str_eq, codes, parse_u64,
}
use ch_chaos.Types.{
  ScenarioType, pod_killer, cpu_stress, network_delay, edge_delay, edge_abort, default_metrics_port,
}
use ch_chaos.Errors.{RunnerError, invalid_config}
use ch_chaos.Json.{Value, object}

pub record RunnerConfig : Type 0 where
  pub experiment_id : String
  pub scenario : ScenarioType
  pub duration : ℕ
  pub parameters : Value
  pub metrics_port : ℕ

-- the environment: the variables that are set, with their values
abbrev pub Environ : Type 0
Environ = List (String × String)

infixl 5 ◌>>=◌
abbrev ◌>>=◌ : {E A B : Type 0} → Result E A → (A → Result E B) → Result E B
ok a >>= f = f a
err e >>= f = err e

-- the derived deserialisation: the name of a variant
unfoldable pub parse_scenario : String → Option ScenarioType
parse_scenario s =
    if str_eq s "PodKiller"
    then some pod_killer
    else if str_eq s "CpuStress"
    then some cpu_stress
    else if str_eq s "NetworkDelay"
    then some network_delay
    else if str_eq s "EdgeDelay"
    then some edge_delay
    else if str_eq s "EdgeAbort"
    then some edge_abort
    else none

-- `str::parse::<u16>`
abbrev pub below_u16 : ℕ → Option ℕ
below_u16 n = if ltb n (2 ^ 16) then some n else none

-- `serde_json::from_str` is the parameter `from_str`.
unfoldable pub from_env : (String → Option Value) → Environ → Result RunnerError RunnerConfig
unfolding parse_scenario parse_u64
from_env from_str env = do
  experiment_id ← ok_or (lookup "EXPERIMENT_ID" env) (invalid_config "EXPERIMENT_ID not set")
  scenario_str ← ok_or (lookup "SCENARIO" env) (invalid_config "SCENARIO not set")
  scenario ←
      ok_or (parse_scenario scenario_str)
        (invalid_config (format ("unknown scenario: " ∷ scenario_str ∷ [])))
  duration_str ← ok_or (lookup "DURATION" env) (invalid_config "DURATION not set")
  duration ← ok_or (parse_u64 (codes duration_str)) (invalid_config "DURATION must be a number")
  ok (record {
    experiment_id = experiment_id;
    scenario = scenario;
    duration = duration;
    parameters = unwrap_or (and_then (lookup "PARAMETERS" env) from_str) (object []);
    metrics_port =
        unwrap_or
          (and_then (lookup "METRICS_PORT" env) (λ p. and_then (parse_u64 (codes p)) below_u16))
          9090;
  })
