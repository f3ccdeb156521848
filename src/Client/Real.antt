-- ===== src/Client/Real.antt =====
-- `RealKubeClient` (src/operator/kube_client.rs) as the client of each reconciler, and
-- `HttpPrometheusClient` (src/operator/graph_builder.rs) as theirs and as the resolver of edges. An
-- answer may depend on what was sent before, which is what the calls before have sent.
use ch_chaos.Base.{List, [], ◌∷◌, Result, some}
use ch_chaos.Errors.{OperatorError}
use ch_chaos.Float.{Float}
use ch_chaos.Graph
use ch_chaos.Graph.Http.{Get, GraphBuilder, HttpPrometheusClient, resolve_edge_by, send}
use ch_chaos.Experiment.{Call, KubeClient, EdgeResolver}
use ch_chaos.Analysis
use ch_chaos.ImpactMap.Reconcile
use ch_chaos.Client.{Request, Api, Serde, Op}
use ch_chaos.Client.Methods

module _ {F : Type 0} (api : Api) (serde : Serde F) where
  abbrev pub after : {A : Type 0} → Op A → List Request → List Request
  after m log = (m log).1

  -- the requests of the calls of an experiment's reconcile
  unfoldable pub sent : List Call → List Request
  sent [] = []
  sent (Call.create_job ns job ∷ l) = after (Methods.create_job api serde ns job) (sent l)
  sent (Call.list_jobs ns selector ∷ l) = after (Methods.list_jobs api serde ns selector) (sent l)
  sent (Call.delete_job ns name ∷ l) = after (Methods.delete_job api serde ns name) (sent l)
  sent (Call.list_target_nodes ns ∷ l) = after (Methods.list_target_nodes api serde ns) (sent l)
  sent (Call.get_service_selector ns name ∷ l) =
      after (Methods.get_service_selector api serde ns name) (sent l)
  sent (Call.create_virtual_service ns vs ∷ l) =
      after (Methods.create_virtual_service api serde ns vs) (sent l)
  sent (Call.list_virtual_services_for_host ns host ∷ l) =
      after (Methods.list_virtual_services_for_host api serde ns host) (sent l)
  sent (Call.delete_virtual_service ns name ∷ l) =
      after (Methods.delete_virtual_service api serde ns name) (sent l)
  sent (Call.patch_experiment_status ns name status ∷ l) =
      after (Methods.patch_experiment_status api serde ns name status) (sent l)
  sent (Call.add_finalizer ns name ∷ l) = after (Methods.add_finalizer api serde ns name) (sent l)
  sent (Call.remove_finalizer ns name ∷ l) =
      after (Methods.remove_finalizer api serde ns name) (sent l)
  sent (Call.resolve_edge source destination ns ∷ l) = sent l
  sent (Call.read_clock ∷ l) = sent l
  sent (Call.new_uuid ∷ l) = sent l

  abbrev answer : {A : Type 0} → Op A → List Call → Result OperatorError A
  answer m calls = (m (sent calls)).0

  -- `impl KubeClient for RealKubeClient`
  unfoldable pub real_kube_client : KubeClient
  real_kube_client = record {
    create_job = λ ns job. answer (Methods.create_job api serde ns job);
    list_jobs = λ ns selector. answer (Methods.list_jobs api serde ns selector);
    delete_job = λ ns name. answer (Methods.delete_job api serde ns name);
    list_target_nodes = λ ns. answer (Methods.list_target_nodes api serde ns);
    get_service_selector = λ ns name. answer (Methods.get_service_selector api serde ns name);
    create_virtual_service = λ ns vs. answer (Methods.create_virtual_service api serde ns vs);
    list_virtual_services_for_host =
        λ ns host. answer (Methods.list_virtual_services_for_host api serde ns host);
    delete_virtual_service = λ ns name. answer (Methods.delete_virtual_service api serde ns name);
    patch_experiment_status =
        λ ns name status. answer (Methods.patch_experiment_status api serde ns name status);
    add_finalizer = λ ns name. answer (Methods.add_finalizer api serde ns name);
    remove_finalizer = λ ns name. answer (Methods.remove_finalizer api serde ns name);
  }

  module _ (float : Float F) where
    -- the HTTP requests to Prometheus
    abbrev pub Http : Type 0 → Type 0
    Http C = List C → Get F

    -- `impl EdgeResolver for RealEdgeResolver`
    unfoldable pub real_edge_resolver : Http Call → GraphBuilder F → EdgeResolver F
    unfolding resolve_edge_by
    real_edge_resolver http graph_builder = record {
      resolve_edge = λ source destination ns calls.
          resolve_edge_by float (http calls) graph_builder source destination ns;
    }

    unfoldable pub sent_by_analysis : List (Analysis.Call F) → List Request
    sent_by_analysis [] = []
    sent_by_analysis (Analysis.Call.get_experiment_status ns name ∷ l) =
        after (Methods.get_experiment_status api serde ns name) (sent_by_analysis l)
    sent_by_analysis (Analysis.Call.patch_analysis_status ns name status ∷ l) =
        after (Methods.patch_analysis_status api serde ns name status) (sent_by_analysis l)
    sent_by_analysis (Analysis.Call.query_at promql time ∷ l) = sent_by_analysis l

    -- `impl AnalysisKubeClient for RealKubeClient`, `impl AnalysisPrometheusClient for
    -- HttpPrometheusClient`
    unfoldable pub analysis_clients :
        Http (Analysis.Call F) → HttpPrometheusClient → Analysis.Clients F
    unfolding Graph.query_at
    analysis_clients http prom_client = record {
      get_experiment_status = λ ns name calls.
          (Methods.get_experiment_status api serde ns name (sent_by_analysis calls)).0;
      patch_analysis_status = λ ns name status calls.
          (Methods.patch_analysis_status api serde ns name status (sent_by_analysis calls)).0;
      query_at =
          λ promql time calls. Graph.query_at float (send (http calls) prom_client) promql time;
    }

    unfoldable pub sent_by_impact_map : List (Reconcile.Call F) → List Request
    sent_by_impact_map [] = []
    sent_by_impact_map (Reconcile.Call.get_experiment_status ns name ∷ l) =
        after (Methods.get_experiment_status api serde ns name) (sent_by_impact_map l)
    sent_by_impact_map (Reconcile.Call.get_experiment_spec ns name ∷ l) =
        after (Methods.get_experiment_spec api serde ns name) (sent_by_impact_map l)
    sent_by_impact_map (Reconcile.Call.patch_impact_map_status ns name status ∷ l) =
        after (Methods.patch_impact_map_status api serde ns name status) (sent_by_impact_map l)
    sent_by_impact_map (Reconcile.Call.query_vector_at promql time ∷ l) = sent_by_impact_map l
    sent_by_impact_map (Reconcile.Call.query_service_graph namespaces ∷ l) = sent_by_impact_map l

    -- `impl ImpactMapKubeClient for RealKubeClient`, and the Prometheus client, which is also the
    -- source of the graph
    unfoldable pub impact_map_clients :
        Http (Reconcile.Call F) → HttpPrometheusClient → Reconcile.Clients F
    unfolding Graph.query_vector_at Graph.query_service_graph
    impact_map_clients http prom_client = record {
      get_experiment_status = λ ns name calls.
          (Methods.get_experiment_status api serde ns name (sent_by_impact_map calls)).0;
      get_experiment_spec = λ ns name calls.
          (Methods.get_experiment_spec api serde ns name (sent_by_impact_map calls)).0;
      patch_impact_map_status = λ ns name status calls.
          (Methods.patch_impact_map_status api serde ns name status (sent_by_impact_map calls)).0;
      query_vector_at = λ promql time calls.
          Graph.query_vector_at float (send (http calls) prom_client) promql time;
      query_service_graph = some (λ namespaces calls.
          Graph.query_service_graph float (send (http calls) prom_client) namespaces);
    }
