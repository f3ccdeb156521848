-- ===== src/ImpactMap/Reconcile.antt =====
-- src/operator/impact_map_reconciler.rs: `reconcile_impact_map`, its clients, the readiness of the
-- experiment, the time windows and the queries.
use ch_chaos.Base.{
  ℕ, String, Bool, true, false, Option, none, some, List, [], ◌∷◌, Result, ok, err, Outcome, done,
  fail, panic, ℤ, pos, negsuc, max, if◌then◌else◌, unwrap_or, format, decimal, Action, pure,
  or_panic, returned, attempt, request, ◌>>=◌,
}
use mathlib.Core.Option
use ch_chaos.Types.{AnalysisPhase, is_terminal, phase_name}
use ch_chaos.Errors.{OperatorError, operator_text}
use ch_chaos.Crd.{
  ChaosExperimentSpec, ChaosExperimentStatus, ChaosImpactMap, ChaosImpactMapSpec,
  ChaosImpactMapStatus, AffectedService,
}
use ch_chaos.Float.{Float}
use ch_chaos.Chrono.{Chrono}
use ch_chaos.Graph.{ServiceKey, ServiceGraph}
use ch_chaos.Analysis.Windows.{parse_time, baseline_seconds}
use ch_chaos.ImpactMap.{
  MetricPair, MetricsSnapshot, compute_affected_services, classify_services, build_completed_status,
  build_pending_status, build_failed_status,
}
use ch_chaos.ImpactMap.Queries.{
  build_namespace_filter, build_latency_query, build_error_rate_query, build_throughput_query,
}

pub data Call (F : Type 0) : Type 0 where
  get_experiment_status get_experiment_spec : String → String → Call F
  patch_impact_map_status : String → String → ChaosImpactMapStatus F → Call F
  query_vector_at : String → String → Call F
  query_service_graph : List String → Call F

-- `trait ImpactMapKubeClient` and `trait ImpactMapPrometheusClient`, and `trait ImpactMapGraphClient`
-- where there is such a client; the answers may depend on all the calls made before.
pub record Clients (F : Type 0) : Type 0 where
  pub get_experiment_status :
      String → String → List (Call F) → Result OperatorError ChaosExperimentStatus
  pub get_experiment_spec :
      String → String → List (Call F) → Result OperatorError ChaosExperimentSpec
  pub patch_impact_map_status :
      String → String → ChaosImpactMapStatus F → List (Call F) → Result OperatorError (Unit {0})
  pub query_vector_at :
      String → String → List (Call F) → Result OperatorError (List (ServiceKey × F))
  pub query_service_graph : Option (List String → List (Call F) → Result OperatorError ServiceGraph)

pub data ExperimentReadiness : Type 0 where
  ready : String → String → ExperimentReadiness
  waiting not_found : String → ExperimentReadiness

abbrev times_of : Option String → Option String → ExperimentReadiness
times_of (some s) (some c) = ready s c
times_of _ _ = not_found "experiment has no startedAt/completedAt"

unfoldable pub check_experiment_readiness : ChaosExperimentStatus → ExperimentReadiness
check_experiment_readiness status =
    if is_terminal status.phase
    then times_of status.started_at status.completed_at
    else waiting (
        format ("Waiting for experiment to complete (phase: " ∷ phase_name status.phase ∷ ")" ∷ []))

pub record TimeWindows : Type 0 where
  pub baseline_time : String
  pub baseline_rate_window : String
  pub chaos_time : String
  pub chaos_rate_window : String

-- `n.max(1) as u64`
abbrev pub at_least_one : ℤ → ℕ
at_least_one (pos n) = max n 1
at_least_one (negsuc n) = 1

infixl 5 ◌>>>◌
abbrev ◌>>>◌ : {E A B : Type 0} → Outcome E A → (A → Outcome E B) → Outcome E B
done a >>> f = f a
fail e >>> f = fail e
panic >>> f = panic

abbrev pub is_completed_phase : AnalysisPhase → Bool
is_completed_phase AnalysisPhase.completed = true
is_completed_phase _ = false

module _ {DateTime TimeDelta : Type 0} (chrono : Chrono DateTime TimeDelta) where
  unfoldable pub calculate_time_windows :
      String → String → String → Outcome OperatorError TimeWindows
  calculate_time_windows started_at completed_at baseline_window =
      baseline_seconds baseline_window >>> λ baseline_secs.
      parse_time chrono "startedAt" started_at >>> λ started.
      parse_time chrono "completedAt" completed_at >>> λ completed. done (record {
        baseline_time = chrono.to_rfc3339 started;
        baseline_rate_window = format (decimal baseline_secs ∷ "s" ∷ []);
        chaos_time = chrono.to_rfc3339 completed;
        chaos_rate_window = format (
            decimal (at_least_one (chrono.num_seconds (chrono.since completed started)))
            ∷ "s"
            ∷ []);
      })

module _ {F : Type 0} (clients : Clients F) where
  abbrev pub Op : Type 0 → Type 0
  Op A = Action (Call F) OperatorError A

  abbrev pub query_vector : String → String → Op (List (ServiceKey × F))
  query_vector promql time =
      request (Call.query_vector_at promql time) (clients.query_vector_at promql time)

  abbrev pub query_metric_pair :
      String → TimeWindows → (String → String → String) → Op (MetricPair F)
  query_metric_pair ns_filter tw build_query = do
    baseline ← query_vector (build_query ns_filter tw.baseline_rate_window) tw.baseline_time
    during ← query_vector (build_query ns_filter tw.chaos_rate_window) tw.chaos_time
    pure (record { baseline = baseline; during = during })

  -- The error of `query_all_metrics` is a text; here the result of an action that does not fail.
  abbrev pub on_ok :
      {A B : Type 0}
      → String
      → (A → Op (Result String B))
      → Result OperatorError A
      → Op (Result String B)
  on_ok what k (ok a) = k a
  on_ok what k (err e) = pure (err (format (what ∷ " query failed: " ∷ operator_text e ∷ [])))

  abbrev pub namespace_filter : ChaosImpactMapSpec → String
  namespace_filter spec =
      unwrap_or (Option.map (λ s. build_namespace_filter s.namespaces) spec.scope) ""

  abbrev pub metric_of :
      {B : Type 0}
      → ChaosImpactMapSpec
      → TimeWindows
      → String
      → (String → String → String)
      → (MetricPair F → Op (Result String B))
      → Op (Result String B)
  metric_of spec tw what build_query k = do
    pair ← attempt (query_metric_pair (namespace_filter spec) tw build_query)
    on_ok what k pair

  abbrev pub with_error_rate :
      ChaosImpactMapSpec
      → TimeWindows
      → MetricPair F
      → MetricPair F
      → Op (Result String (MetricsSnapshot F))
  with_error_rate spec tw latency error_rate =
      metric_of spec tw "throughput" build_throughput_query λ throughput.
        pure (ok (record { latency = latency; error_rate = error_rate; throughput = throughput }))

  abbrev pub with_latency :
      ChaosImpactMapSpec → TimeWindows → MetricPair F → Op (Result String (MetricsSnapshot F))
  with_latency spec tw latency =
      metric_of spec tw "error rate" build_error_rate_query (with_error_rate spec tw latency)

  abbrev pub query_all_metrics :
      ChaosImpactMapSpec → TimeWindows → Op (Result String (MetricsSnapshot F))
  query_all_metrics spec tw = metric_of spec tw "latency" build_latency_query (with_latency spec tw)

  abbrev pub map_name : ChaosImpactMap F → String
  map_name m = unwrap_or m.metadata.name "unknown"

  abbrev pub map_namespace : ChaosImpactMap F → String
  map_namespace m = unwrap_or m.metadata.namespace "default"

  abbrev pub experiment_namespace : ChaosImpactMap F → String
  experiment_namespace m = unwrap_or m.spec.experiment_ref.namespace (map_namespace m)

  abbrev pub patch_status : ChaosImpactMap F → ChaosImpactMapStatus F → Op (Unit {0})
  patch_status m status =
      request (Call.patch_impact_map_status (map_namespace m) (map_name m) status)
        (clients.patch_impact_map_status (map_namespace m) (map_name m) status)

  abbrev pub is_completed : ChaosImpactMap F → Bool
  is_completed m = unwrap_or (Option.map (λ s. is_completed_phase s.phase) m.status) false

  abbrev pub classify_found :
      ChaosImpactMap F
      → List (AffectedService F)
      → ChaosExperimentSpec
      → Result OperatorError ServiceGraph
      → Op (List (AffectedService F))
  classify_found m affected spec (ok graph) =
      or_panic (classify_services affected spec graph (map_namespace m))
  classify_found m affected spec (err e) = pure affected

  abbrev pub classify_with :
      ChaosImpactMap F
      → List (AffectedService F)
      → (List String → List (Call F) → Result OperatorError ServiceGraph)
      → Result OperatorError ChaosExperimentSpec
      → Op (List (AffectedService F))
  classify_with m affected graph (ok spec) = do
    found ← attempt (request (Call.query_service_graph []) (graph []))
    classify_found m affected spec found
  classify_with m affected graph (err e) = pure affected

  -- Where there is no graph, or no spec, or no answer, the services stay without a class.
  abbrev pub classified :
      ChaosImpactMap F
      → List (AffectedService F)
      → Option (List String → List (Call F) → Result OperatorError ServiceGraph)
      → Op (List (AffectedService F))
  classified m affected none = pure affected
  classified m affected (some graph) = do
    spec ← attempt (
        request (Call.get_experiment_spec (experiment_namespace m) m.spec.experiment_ref.name)
          (clients.get_experiment_spec (experiment_namespace m) m.spec.experiment_ref.name))
    classify_with m affected graph spec

  module _ {DateTime TimeDelta : Type 0} (float : Float F)
      (chrono : Chrono DateTime TimeDelta) where
    abbrev pub score : ChaosImpactMap F → Result String (MetricsSnapshot F) → Op (Unit {0})
    score m (err message) = patch_status m (build_failed_status message)
    score m (ok metrics) = do
      let (scanned, affected) = compute_affected_services float metrics m.spec.min_impact
      services ← classified m affected clients.query_service_graph
      patch_status m (build_completed_status scanned services)

    abbrev pub assess : ChaosImpactMap F → ExperimentReadiness → Op (Unit {0})
    assess m (waiting message) = patch_status m (build_pending_status message)
    assess m (not_found message) = patch_status m (build_failed_status message)
    assess m (ready started_at completed_at) = do
      tw ←
          returned (
            calculate_time_windows chrono started_at completed_at m.spec.prometheus.baseline_window)
      metrics ← query_all_metrics m.spec tw
      score m metrics

    abbrev pub with_experiment :
        ChaosImpactMap F → Result OperatorError ChaosExperimentStatus → Op (Unit {0})
    with_experiment m (ok status) = assess m (check_experiment_readiness status)
    with_experiment m (err e) = patch_status m (
        build_failed_status (
          format (
            "cannot get experiment '" ∷ m.spec.experiment_ref.name ∷ "': " ∷ operator_text e ∷ [])))

    unfoldable pub reconcile_impact_map : ChaosImpactMap F → Op (Unit {0})
    reconcile_impact_map m = if is_completed m then pure tt else (do
      r ← attempt (
          request (Call.get_experiment_status (experiment_namespace m) m.spec.experiment_ref.name)
            (clients.get_experiment_status (experiment_namespace m) m.spec.experiment_ref.name))
      with_experiment m r)
