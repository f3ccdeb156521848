-- ===== src/JobBuilder.antt =====
-- src/operator/job_builder.rs: the Job that runs one experiment on one node. A slice of a text at a
-- byte that is no character boundary panics in the source; there the functions are `none`.
pub mod Names
use Prim.Native.String.{len}
use mathlib.Core.Option
use text.Mathlib.Text.{get?}
use ch_chaos.Base.{
  ℕ, ◌-◌, String, true, Option, none, some, List, [], ◌∷◌, ◌++◌, min, format, decimal, unwrap_or,
  if◌then◌else◌,
}
use ch_chaos.Types.{
  ScenarioType, scenario_name, requires_privileged, default_runner_image, default_metrics_port,
  experiment_label, scenario_label, job_backoff_limit, job_ttl_after_finished,
}
use ch_chaos.Objects.{
  Labels, ObjectMeta, OwnerReference, EnvVar, ContainerPort, SecurityContext, Container, PodSpec,
  PodTemplateSpec, JobSpec, Job,
}
use ch_chaos.Crd.{ChaosExperiment}

pub record JobBuilderConfig : Type 0 where
  pub runner_image : String
  pub metrics_port : ℕ

abbrev pub default_job_builder_config : JobBuilderConfig
default_job_builder_config = record {
  runner_image = default_runner_image;
  metrics_port = default_metrics_port;
}

-- `ObjectMeta::default()`
abbrev pub default_meta : ObjectMeta
default_meta = record {
  name = none;
  namespace = none;
  uid = none;
  labels = none;
  annotations = none;
  owner_references = none;
  finalizers = none;
  deletion_timestamp = none;
}

infixl 5 ◌>>=◌
abbrev ◌>>=◌ : {A B : Type 0} → Option A → (A → Option B) → Option B
none >>= f = none
some a >>= f = f a

unfoldable pub make_job_name : String → String → Option String
make_job_name experiment_id node_name = do
  id_prefix ← get? experiment_id 0 (min 8 (len experiment_id))
  let max_node_len = 63 - 13 - 1 - len id_prefix
  node_short ← get? node_name 0 (min max_node_len (len node_name))
  some (format ("chaos-runner-" ∷ id_prefix ∷ "-" ∷ node_short ∷ []))

-- The pairs stand in the order of their keys, as in the `BTreeMap`.
unfoldable pub job_labels : String → ScenarioType → Labels
job_labels exp_name scenario =
    ("app", "chimp-chaos-runner")
    ∷ (experiment_label, exp_name)
    ∷ (scenario_label, scenario_name scenario)
    ∷ []

unfoldable pub owner_ref : ChaosExperiment → OwnerReference
owner_ref experiment = record {
  api_version = "chaos.io/v1";
  kind = "ChaosExperiment";
  name = unwrap_or experiment.metadata.name "unknown";
  uid = unwrap_or experiment.metadata.uid "";
  controller = some true;
  block_owner_deletion = some true;
}

unfoldable pub env_var : String → String → EnvVar
env_var name value = record { name = name; value = some value }

abbrev parameter_vars : Option String → List EnvVar
unfolding env_var
parameter_vars none = []
parameter_vars (some params) = env_var "PARAMETERS" params ∷ []

unfoldable pub runner_env_vars : String → ScenarioType → ℕ → Option String → List EnvVar
unfolding env_var
runner_env_vars experiment_id scenario duration parameters_json =
    (env_var "EXPERIMENT_ID" experiment_id
      ∷ env_var "SCENARIO" (scenario_name scenario)
      ∷ env_var "DURATION" (decimal duration)
      ∷ [])
    ++ parameter_vars parameters_json

unfoldable pub runner_container :
    ScenarioType → String → ℕ → Option String → JobBuilderConfig → Container
unfolding runner_env_vars
runner_container scenario experiment_id duration parameters_json config = record {
  name = "chaos-runner";
  image = some config.runner_image;
  args = some ("--mode" ∷ "runner" ∷ []);
  env = some (runner_env_vars experiment_id scenario duration parameters_json);
  ports = some (record { container_port = config.metrics_port; name = some "metrics" } ∷ []);
  security_context =
      if requires_privileged scenario then some (record { privileged = some true }) else none;
}

unfoldable pub prometheus_annotations : ℕ → Labels
prometheus_annotations metrics_port =
    ("prometheus.io/port", decimal metrics_port) ∷ ("prometheus.io/scrape", "true") ∷ []

unfoldable pub pod_template :
    String → ScenarioType → String → ℕ → Option String → JobBuilderConfig → PodTemplateSpec
unfolding runner_container prometheus_annotations
pod_template node_name scenario experiment_id duration parameters_json config = record {
  metadata = some (record default_meta {
    labels = some (("app", "chimp-chaos-runner") ∷ []);
    annotations = some (prometheus_annotations config.metrics_port);
  });
  spec = some (record {
    containers = runner_container scenario experiment_id duration parameters_json config ∷ [];
    node_name = some node_name;
    restart_policy = some "Never";
    service_account_name = some "chimp-chaos-runner";
  });
}

abbrev runner_job :
    ChaosExperiment
    → String
    → String
    → ScenarioType
    → ℕ
    → Option String
    → JobBuilderConfig
    → String
    → Job
runner_job experiment experiment_id node_name scenario duration parameters_json config job_name =
    let exp_name = unwrap_or experiment.metadata.name "unknown" in
    record {
      metadata = record default_meta {
        name = some job_name;
        namespace = some (unwrap_or experiment.metadata.namespace "default");
        labels = some (job_labels exp_name scenario);
        owner_references = some (owner_ref experiment ∷ []);
      };
      spec = some (record {
        backoff_limit = some job_backoff_limit;
        ttl_seconds_after_finished = some job_ttl_after_finished;
        template = pod_template node_name scenario experiment_id duration parameters_json config;
      });
      status = none;
    }

unfoldable pub build_runner_job :
    ChaosExperiment
    → String
    → String
    → ScenarioType
    → ℕ
    → Option String
    → JobBuilderConfig
    → Option Job
build_runner_job experiment experiment_id node_name scenario duration parameters_json config =
    Option.map
      (runner_job experiment experiment_id node_name scenario duration parameters_json config)
      (make_job_name experiment_id node_name)
