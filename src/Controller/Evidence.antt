-- ===== src/Controller/Evidence.antt =====
-- What an edge experiment needs to be seen in Prometheus (src/operator/controller.rs, reconciler.rs,
-- graph_builder.rs): the reconciler with the real resolver of edges.
use ch_chaos.Base.{String, ◌≡◌, true, some, List, [], ◌∷◌, Result, ok, err, All, settle}
use ch_chaos.Types.{EdgeTarget}
use ch_chaos.Errors.{operator_text, validation, edge_not_found}
use ch_chaos.Objects.{Labels}
use ch_chaos.Crd.{ChaosExperiment}
use ch_chaos.Float.{Float}
use ch_chaos.Graph.{
  PrometheusApiResponse, GraphBuilderConfig, build_edges_query, find_edge, query,
  default_graph_builder_config,
}
use ch_chaos.Graph
use ch_chaos.Graph.Http.{GraphBuilder, new_builder, new_client, query_url, send, resolve_edge_by}
use ch_chaos.Graph.Edges.{IsBetween, find_edge_lem}
use ch_chaos.Experiment.{
  Call, KubeClient, System, VirtualServiceInfo, exp_name, exp_namespace, target_namespace, edge_of,
}
use ch_chaos.Experiment.Pending.{handle_pending_edge}
use ch_chaos.Experiment.Edge.{
  host, looked_up, listed, resolved, unobserved, refused_status, handle_pending_edge-refuses,
}
use ch_chaos.Istio.{is_chaos_managed}
use ch_chaos.Client.{Api, Serde}
use ch_chaos.Client.Real.{Http, real_edge_resolver}

module _ {F : Type 0} (float : Float F)
    (send : List (String × String) → Result String (PrometheusApiResponse F))
    (config : GraphBuilderConfig F) (source destination namespace : String)
    (resp : PrometheusApiResponse F) where
  resolve_edge-unseen :
      send (("query", build_edges_query config.lookback) ∷ []) ≡ ok resp
      → resp.status ≡ "success"
      → find_edge float config resp.result source destination namespace
        ≡ err (validation (edge_not_found source destination))
      → Graph.resolve_edge float send config source destination namespace
        ≡ err (validation (edge_not_found source destination))
  unfolding Graph.resolve_edge query
  resolve_edge-unseen answered success unseen =
      rw (answered, Graph.resolve_edge, query) (rw success unseen)

module _ {DateTime F : Type 0} (api : Api) (serde : Serde F) (float : Float F)
    (sys : System DateTime) (http : Http api serde float Call) (kube : KubeClient) (url : String)
    (e : ChaosExperiment) (eid : String) (target : EdgeTarget) (log : List Call)
    (edge : edge_of e.spec ≡ some target) where
  abbrev config : GraphBuilderConfig F
  config = default_graph_builder_config float

  -- the graph builder of `run`
  abbrev pub builder : GraphBuilder F
  builder = new_builder (new_client url) config

  -- Where Prometheus answers the query of the edges, below its base URL, with metrics of which none is of the experiment's
  -- edge (from its source workload in the target namespace to its destination service), the experiment is
  -- refused, after the look-up of the source, the list of the VirtualServices and that query: one status
  -- is written, which is Failed and says that the edge was not found, and no VirtualService is created.
  pub unseen_edge-refuses :
      {l : String × String} {ls : Labels} {vss : List VirtualServiceInfo}
      → let resolver = real_edge_resolver api serde float http builder in
        let before = listed sys kube e resolver eid target log in
        let calls = resolved sys kube e resolver eid target log in
        let status = refused_status (
          operator_text
            (validation (edge_not_found target.source_service target.destination_service))) in
        (resp : PrometheusApiResponse F)
        → kube.get_service_selector (target_namespace e) target.source_service log ≡ ok (l ∷ ls)
        → kube.list_virtual_services_for_host
            (target_namespace e)
            (host sys kube e resolver eid target log)
            (looked_up sys kube e resolver eid target log)
          ≡ ok vss
        → All (λ vs. is_chaos_managed vs.labels ≡ true) vss
        → http before (query_url builder.client) (("query", build_edges_query config.lookback) ∷ [])
          ≡ ok resp
        → resp.status ≡ "success"
        → All
            (λ m.
              ¬ IsBetween float config resp.result target.source_service target.destination_service
                (target_namespace e)
                m)
            resp.result
        → handle_pending_edge sys kube e (some resolver) eid log ≡ (
          settle (kube.patch_experiment_status (exp_namespace e) (exp_name e) status calls),
          Call.patch_experiment_status (exp_namespace e) (exp_name e) status ∷ calls,
        )
  unfolding real_edge_resolver resolve_edge_by
  unseen_edge-refuses resp selected found free answered success none_between =
      let resolver = real_edge_resolver api serde float http builder in
      let unseen =
        (find_edge_lem float config resp.result target.source_service target.destination_service
            (target_namespace e)).1.1
          none_between in
      handle_pending_edge-refuses sys kube e resolver eid target log edge (
        unobserved selected found free (
          resolve_edge-unseen float
            (send (http (listed sys kube e resolver eid target log)) builder.client) config
            target.source_service target.destination_service (target_namespace e) resp answered
            success unseen))
