-- ===== src/Graph.antt =====
-- src/operator/graph_builder.rs: what the operator reads from Prometheus. The HTTP request is a
-- parameter; the rest of the clients, the service graph and the search for an edge are modelled.
pub mod Edges
pub mod Traffic
pub mod Http
use ch_chaos.Base.{
  ℕ, String, Bool, true, false, ◌&&◌, Option, none, some, List, [], ◌∷◌, ◌++◌, Result, ok, err,
  if◌then◌else◌, str_eq, find, lookup, unwrap_or, and_then, format, ok_or,
}
use ch_chaos.Types.{EdgeInfo, default_graph_lookback}
use ch_chaos.Errors.{
  OperatorError, validation, prometheus, edge_traffic_below_threshold, edge_not_found,
}
use ch_chaos.Objects.{Labels}
use ch_chaos.Float.{Float}

-- `value : (f64, String)`: the time and the text of the sample
pub record PrometheusMetric (F : Type 0) : Type 0 where
  pub metric : Labels
  pub value : F × String

-- `PrometheusApiResponse`, with the vector of its data
pub record PrometheusApiResponse (F : Type 0) : Type 0 where
  pub status : String
  pub result : List (PrometheusMetric F)

pub record ServiceKey : Type 0 where
  pub workload : String
  pub namespace : String

abbrev pub key_eq : ServiceKey → ServiceKey → Bool
key_eq a b = str_eq a.workload b.workload && str_eq a.namespace b.namespace

-- `HashMap<ServiceKey, _>` as an association list
abbrev pub lookup_key {ℓ} : {V : Type ℓ} → ServiceKey → List (ServiceKey × V) → Option V
lookup_key k [] = none
lookup_key k ((j, v) ∷ m) = if key_eq j k then some v else lookup_key k m

abbrev pub insert_key {ℓ} :
    {V : Type ℓ} → ServiceKey → V → List (ServiceKey × V) → List (ServiceKey × V)
insert_key k v [] = (k, v) ∷ []
insert_key k v ((j, w) ∷ m) = if key_eq j k then (j, v) ∷ m else (j, w) ∷ insert_key k v m

-- `map.entry(k).or_default().push(v)`
abbrev pub push_key :
    {V : Type 0} → ServiceKey → V → List (ServiceKey × List V) → List (ServiceKey × List V)
push_key k v [] = (k, v ∷ []) ∷ []
push_key k v ((j, vs) ∷ m) =
    if key_eq j k then (j, vs ++ (v ∷ [])) ∷ m else (j, vs) ∷ push_key k v m

-- `service_to_workload` is keyed by a service and its namespace, which a `ServiceKey` holds too.
pub record ServiceGraph : Type 0 where
  pub adjacency : List (ServiceKey × List ServiceKey)
  pub service_to_workload : List (ServiceKey × ServiceKey)

abbrev pub empty_graph : ServiceGraph
empty_graph = record { adjacency = []; service_to_workload = [] }

pub record GraphBuilderConfig (F : Type 0) : Type 0 where
  pub lookback : String
  pub min_rps : F

unfoldable pub build_edges_query : String → String
build_edges_query lookback = format (
    "sum by (source_workload, source_workload_namespace, destination_workload, destination_workload_namespace, destination_service_name) (rate(istio_requests_total["
    ∷ lookback ∷ "]))" ∷ [])

module _ {F : Type 0} (float : Float F) where
  abbrev pub rps : PrometheusMetric F → F
  rps m = unwrap_or (float.parse m.value.1) (float.literal "0.0")

  abbrev pub label : PrometheusMetric F → String → String
  label m key = unwrap_or (lookup key m.metric) ""

  abbrev pub default_graph_builder_config : GraphBuilderConfig F
  default_graph_builder_config = record {
    lookback = default_graph_lookback;
    min_rps = float.literal "0.05";
  }

  -- a sample's number, with 0 for what is no number
  abbrev pub sample : PrometheusMetric F → F
  sample m =
      let v = unwrap_or (float.parse m.value.1) (float.literal "0.0") in
      if float.is_nan v then float.literal "0.0" else v

  -- one round of the loop in `build_service_graph`
  abbrev pub add_metric : PrometheusMetric F → ServiceGraph → ServiceGraph
  add_metric m g =
      let src_workload = label m "source_workload" in
      let dst_workload = label m "destination_workload" in
      let dst_ns = label m "destination_workload_namespace" in
      let dst_service = label m "destination_service_name" in
      let src : ServiceKey = record {
        workload = src_workload;
        namespace = label m "source_workload_namespace";
      } in
      let dst : ServiceKey = record { workload = dst_workload; namespace = dst_ns } in
      if str_eq src_workload "" then g else if str_eq dst_workload "" then g else record {
        adjacency = push_key src dst g.adjacency;
        service_to_workload =
            if str_eq dst_service ""
            then g.service_to_workload
            else insert_key (record { workload = dst_service; namespace = dst_ns }) dst
                g.service_to_workload;
      }

  unfoldable pub add_metrics : ServiceGraph → List (PrometheusMetric F) → ServiceGraph
  add_metrics g [] = g
  add_metrics g (m ∷ ms) = add_metrics (add_metric m g) ms

  unfoldable pub build_service_graph : List (PrometheusMetric F) → ServiceGraph
  unfolding add_metrics
  build_service_graph metrics = add_metrics empty_graph metrics

  unfoldable pub edge_info_from_metric : PrometheusMetric F → EdgeInfo F
  edge_info_from_metric m = record {
    source_workload = label m "source_workload";
    source_namespace = label m "source_workload_namespace";
    destination_workload = label m "destination_workload";
    destination_namespace = label m "destination_workload_namespace";
    destination_service = label m "destination_service_name";
    rps = rps m;
    source_labels = [];
  }

  abbrev pub is_edge : String → String → String → PrometheusMetric F → Bool
  is_edge source destination namespace m =
      str_eq (label m "source_workload") source
      && str_eq (label m "destination_service_name") destination
      && str_eq (label m "source_workload_namespace") namespace

  abbrev judge_edge :
      F → String → String → Option (PrometheusMetric F) → Result OperatorError (EdgeInfo F)
  judge_edge min_rps source destination none = err (validation (edge_not_found source destination))
  judge_edge min_rps source destination (some m) =
      if float.ge (rps m) min_rps
      then ok (edge_info_from_metric m)
      else err (validation edge_traffic_below_threshold)

  unfoldable pub find_edge :
      GraphBuilderConfig F
      → List (PrometheusMetric F)
      → String
      → String
      → String
      → Result OperatorError (EdgeInfo F)
  find_edge config metrics source destination namespace =
      judge_edge config.min_rps source destination
        (find (is_edge source destination namespace) metrics)

  -- The clients over one HTTP request, which gives the decoded response or the error's text.
  abbrev checked :
      Result String (PrometheusApiResponse F) → Result OperatorError (List (PrometheusMetric F))
  checked (err e) = err (prometheus e)
  checked (ok resp) =
      if str_eq resp.status "success"
      then ok resp.result
      else err (prometheus (format ("prometheus returned status: " ∷ resp.status ∷ [])))

  abbrev first_sample : List (PrometheusMetric F) → Result OperatorError F
  first_sample [] = err (prometheus "empty query result")
  first_sample (m ∷ ms) = ok (sample m)

  vector_from : List (ServiceKey × F) → List (PrometheusMetric F) → List (ServiceKey × F)
  vector_from map [] = map
  vector_from map (m ∷ ms) =
      let workload = label m "destination_workload" in
      let key : ServiceKey = record {
        workload = workload;
        namespace = label m "destination_workload_namespace";
      } in
      vector_from (if str_eq workload "" then map else insert_key key (sample m) map) ms

  module _ (send : List (String × String) → Result String (PrometheusApiResponse F)) where
    unfoldable pub query : String → Result OperatorError (List (PrometheusMetric F))
    query promql = checked (send (("query", promql) ∷ []))

    unfoldable pub query_at : String → String → Result OperatorError F
    query_at promql time = elim (checked (send (("query", promql) ∷ ("time", time) ∷ []))) [
      | ok metrics ↦ first_sample metrics
      | err e ↦ err e
    ]

    unfoldable pub query_vector_at : String → String → Result OperatorError (List (ServiceKey × F))
    unfolding vector_from
    query_vector_at promql time = elim (checked (send (("query", promql) ∷ ("time", time) ∷ []))) [
      | ok metrics ↦ ok (vector_from [] metrics)
      | err e ↦ err e
    ]

    unfoldable pub query_service_graph : List String → Result OperatorError ServiceGraph
    unfolding query build_service_graph
    query_service_graph namespace_filter = elim (query (build_edges_query default_graph_lookback)) [
      | ok metrics ↦ ok (build_service_graph metrics)
      | err e ↦ err e
    ]

    -- `GraphBuilder::resolve_edge`
    unfoldable pub resolve_edge :
        GraphBuilderConfig F → String → String → String → Result OperatorError (EdgeInfo F)
    unfolding query find_edge
    resolve_edge config source destination namespace =
        elim (query (build_edges_query config.lookback)) [
          | ok metrics ↦ find_edge config metrics source destination namespace
          | err e ↦ err e
        ]
