-- ===== src/Controller.antt =====
-- src/operator/controller.rs: what the controllers run, with the real clients, and when they come back
-- to an object.
pub mod Retries
pub mod Placement
pub mod Evidence
use ch_chaos.Base.{
  ℕ, String, Option, none, some, List, Outcome, done, fail, panic, lookup, pure, ◌>>=◌, ◌>>◌,
}
use ch_chaos.Errors.{OperatorError}
use ch_chaos.Crd.{ChaosExperiment, ChaosAnalysis, ChaosImpactMap}
use ch_chaos.Float.{Float}
use ch_chaos.Chrono.{Chrono}
use ch_chaos.Graph.{default_graph_builder_config}
use ch_chaos.Graph.Http.{new_client, new_builder}
use ch_chaos.JobBuilder.{JobBuilderConfig, default_job_builder_config}
use ch_chaos.Experiment.{Call, KubeClient, EdgeResolver, System, ReconcilerConfig, ReconcileResult}
use ch_chaos.Experiment.Kube
use ch_chaos.Experiment.Reconcile.{reconcile}
use ch_chaos.Analysis
use ch_chaos.Analysis.{reconcile_analysis}
use ch_chaos.ImpactMap.Reconcile
use ch_chaos.ImpactMap.Reconcile.{reconcile_impact_map}
use ch_chaos.Client.{Api, Serde}
use ch_chaos.Client.Real.{
  Http, real_kube_client, real_edge_resolver, analysis_clients, impact_map_clients,
}

-- `kube::runtime::controller::Action`: come back after so many seconds, or when the object changes
pub data Action : Type 0 where
  requeue : ℕ → Action
  await_change : Action

abbrev pub action_of : ReconcileResult → Action
action_of (ReconcileResult.requeue n) = requeue n
action_of ReconcileResult.done = await_change

unfoldable pub error_policy : OperatorError → Action
error_policy e = requeue 30

unfoldable pub analysis_error_policy : OperatorError → Action
analysis_error_policy e = requeue 30

unfoldable pub impact_map_error_policy : OperatorError → Action
impact_map_error_policy e = requeue 30

-- What `Controller::run` does with the outcome of a reconcile: an error goes to the error policy; a
-- panic leaves no action.
abbrev pub next_action : (OperatorError → Action) → Outcome OperatorError Action → Option Action
next_action policy (done a) = some a
next_action policy (fail e) = some (policy e)
next_action policy panic = none

abbrev with_image : Option String → JobBuilderConfig → JobBuilderConfig
with_image none config = config
with_image (some image) config = record config { runner_image = image }

-- the configuration of `run`, from the environment
unfoldable pub operator_config : List (String × String) → ReconcilerConfig
operator_config env = record {
  job_builder = with_image (lookup "RUNNER_IMAGE" env) default_job_builder_config;
}

pub record OperatorContext (F : Type 0) : Type 0 where
  pub kube_client : KubeClient
  pub edge_resolver : EdgeResolver F
  pub config : ReconcilerConfig

-- the Kubernetes client and the Prometheus client of each of the others
pub record AnalysisContext (F : Type 0) : Type 0 where
  pub clients : Analysis.Clients F

pub record ImpactMapContext (F : Type 0) : Type 0 where
  pub clients : Reconcile.Clients F

unfoldable pub reconcile_handler :
    {DateTime F : Type 0} → System DateTime → OperatorContext F → ChaosExperiment → Kube.Op Action
unfolding reconcile
reconcile_handler sys ctx experiment = do
  result ← reconcile sys ctx.kube_client (some ctx.edge_resolver) ctx.config experiment
  pure (action_of result)

module _ {F DateTime TimeDelta : Type 0} (float : Float F)
    (chrono : Chrono DateTime TimeDelta) where
  unfoldable pub reconcile_analysis_handler :
      (ctx : AnalysisContext F) → ChaosAnalysis F → Analysis.Op float chrono ctx.clients Action
  reconcile_analysis_handler ctx analysis = do
    reconcile_analysis float chrono ctx.clients analysis
    pure (requeue 300)

  unfoldable pub reconcile_impact_map_handler :
      (ctx : ImpactMapContext F) → ChaosImpactMap F → Reconcile.Op ctx.clients Action
  reconcile_impact_map_handler ctx impact_map = do
    reconcile_impact_map ctx.clients float chrono impact_map
    pure (requeue 300)

-- What each controller does with one object: its handler, then its error policy.
module _ {F DateTime : Type 0} where
  unfoldable pub experiment_controller :
      System DateTime → OperatorContext F → ChaosExperiment → List Call → Option Action × List Call
  unfolding reconcile_handler error_policy
  experiment_controller sys ctx experiment log =
      let (outcome, calls) = reconcile_handler sys ctx experiment log in
      (next_action error_policy outcome, calls)

  module _ {TimeDelta : Type 0} (float : Float F) (chrono : Chrono DateTime TimeDelta) where
    unfoldable pub analysis_controller :
        AnalysisContext F
        → ChaosAnalysis F
        → List (Analysis.Call F)
        → Option Action × List (Analysis.Call F)
    unfolding reconcile_analysis_handler analysis_error_policy
    analysis_controller ctx analysis log =
        let (outcome, calls) = reconcile_analysis_handler float chrono ctx analysis log in
        (next_action analysis_error_policy outcome, calls)

    unfoldable pub impact_map_controller :
        ImpactMapContext F
        → ChaosImpactMap F
        → List (Reconcile.Call F)
        → Option Action × List (Reconcile.Call F)
    unfolding reconcile_impact_map_handler impact_map_error_policy
    impact_map_controller ctx impact_map log =
        let (outcome, calls) = reconcile_impact_map_handler float chrono ctx impact_map log in
        (next_action impact_map_error_policy outcome, calls)

-- The contexts that `run` makes of the client of the API server, the environment and the URL of
-- Prometheus.
module _ {F : Type 0} (api : Api) (serde : Serde F) (float : Float F) where
  unfoldable pub operator_context :
      Http api serde float Call → List (String × String) → String → OperatorContext F
  unfolding real_kube_client real_edge_resolver operator_config new_client
  operator_context http env prometheus_url = record {
    kube_client = real_kube_client api serde;
    edge_resolver =
        real_edge_resolver api serde float http
          (new_builder (new_client prometheus_url) (default_graph_builder_config float));
    config = operator_config env;
  }

  unfoldable pub analysis_context :
      Http api serde float (Analysis.Call F) → String → AnalysisContext F
  unfolding analysis_clients new_client
  analysis_context http prometheus_url = record {
    clients = analysis_clients api serde float http (new_client prometheus_url);
  }

  unfoldable pub impact_map_context :
      Http api serde float (Reconcile.Call F) → String → ImpactMapContext F
  unfolding impact_map_clients new_client
  impact_map_context http prometheus_url = record {
    clients = impact_map_clients api serde float http (new_client prometheus_url);
  }
