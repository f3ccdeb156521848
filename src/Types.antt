-- ===== src/Types.antt =====
-- src/operator/types.rs: the enums, the edge types and the constants. The errors are in `Errors`.
use ch_chaos.Base.{ℕ, String, Bool, true, false, not, Option, List}

-- The variants carry their source names in lower case.
pub data ScenarioType : Type 0 where
  pod_killer cpu_stress network_delay edge_delay edge_abort : ScenarioType

pub data Phase : Type 0 where
  pending running succeeded failed : Phase

pub data DegradationDirection : Type 0 where
  up down : DegradationDirection

-- `ExperimentId`: a UUID, here its text; a new one is made of a fresh UUID (the crate uuid).
pub record ExperimentId : Type 0 where
  pub uuid : String

abbrev pub new_experiment_id : String → ExperimentId
new_experiment_id fresh = record { uuid = fresh }

abbrev pub experiment_id_text : ExperimentId → String
experiment_id_text id = id.uuid

pub data AnalysisVerdict : Type 0 where
  pass fail : AnalysisVerdict

pub data AnalysisPhase : Type 0 where
  pending completed failed : AnalysisPhase

pub data ImpactType : Type 0 where
  direct indirect : ImpactType

abbrev pub is_edge_chaos : ScenarioType → Bool
is_edge_chaos edge_delay = true
is_edge_chaos edge_abort = true
is_edge_chaos _ = false

abbrev pub is_pod_node_chaos : ScenarioType → Bool
is_pod_node_chaos s = not (is_edge_chaos s)

abbrev pub requires_privileged : ScenarioType → Bool
requires_privileged cpu_stress = true
requires_privileged network_delay = true
requires_privileged _ = false

-- `Display`, which is the derived `Debug`
abbrev pub scenario_name : ScenarioType → String
scenario_name pod_killer = "PodKiller"
scenario_name cpu_stress = "CpuStress"
scenario_name network_delay = "NetworkDelay"
scenario_name edge_delay = "EdgeDelay"
scenario_name edge_abort = "EdgeAbort"

abbrev pub is_terminal : Phase → Bool
is_terminal Phase.succeeded = true
is_terminal Phase.failed = true
is_terminal _ = false

-- `Display`, which is the derived `Debug`
abbrev pub phase_name : Phase → String
phase_name Phase.pending = "Pending"
phase_name Phase.running = "Running"
phase_name Phase.succeeded = "Succeeded"
phase_name Phase.failed = "Failed"

pub record EdgeTarget : Type 0 where
  pub source_service : String
  pub destination_service : String

pub record Target : Type 0 where
  pub namespace : Option String
  pub edge : Option EdgeTarget

-- `rps : f64` is of the type `F` of floats that the development takes as a parameter.
pub record EdgeInfo (F : Type 0) : Type 0 where
  pub source_workload : String
  pub source_namespace : String
  pub destination_workload : String
  pub destination_namespace : String
  pub destination_service : String
  pub rps : F
  pub source_labels : List (String × String)

abbrev pub finalizer_name : String
finalizer_name = "chaos.io/cleanup"

abbrev pub managed_by_label : String
managed_by_label = "chaos.io/managed-by"

abbrev pub managed_by_value : String
managed_by_value = "chimp-chaos"

abbrev pub experiment_label : String
experiment_label = "chaos.io/experiment"

abbrev pub scenario_label : String
scenario_label = "chaos.io/scenario"

abbrev pub requeue_running_secs : ℕ
requeue_running_secs = 5

abbrev pub requeue_terminal_secs : ℕ
requeue_terminal_secs = 300

abbrev pub job_backoff_limit : ℕ
job_backoff_limit = 0

abbrev pub job_ttl_after_finished : ℕ
job_ttl_after_finished = 300

abbrev pub default_runner_image : String
default_runner_image = "chimp-chaos:latest"

abbrev pub default_metrics_port : ℕ
default_metrics_port = 9090

abbrev pub default_prometheus_url : String
default_prometheus_url = "http://prometheus:9090"

abbrev pub default_graph_lookback : String
default_graph_lookback = "10m"
