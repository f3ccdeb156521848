-- ===== src/ImpactMap/Reports.antt =====
-- What an impact map reports: which calls a reconcile of it may make.
use ch_chaos.Base.{
  ◌≡◌, ◌≢◌, refl, ◌⊎◌, inl, inr, String, true, false, Option, none, some, List, [], Result, ok, err,
  arith, returned, attempt, Bool-cases,
}
use ch_chaos.Types.{AnalysisPhase, is_terminal}
use ch_chaos.Errors.{OperatorError}
use ch_chaos.Crd.{
  AffectedService, ChaosExperimentSpec, ChaosExperimentStatus, ChaosImpactMap, ChaosImpactMapStatus,
}
use ch_chaos.Float.{Float}
use ch_chaos.Chrono.{Chrono}
use ch_chaos.Graph.{ServiceGraph}
use ch_chaos.Trace.{
  Emits, >>=-Emits, if-Emits, pure-Emits, request-Emits, returned-Emits, attempt-Emits,
  attempt-request->>=,
}
use ch_chaos.ImpactMap.{
  MetricPair, MetricsSnapshot, compute_affected_services, build_completed_status,
}
use ch_chaos.ImpactMap.Queries.{build_latency_query, build_error_rate_query, build_throughput_query}
use ch_chaos.ImpactMap.Reconcile.{
  Op, query_vector, patch_status, calculate_time_windows, classify_found, classify_with, Call,
  Clients, TimeWindows, ExperimentReadiness, ready, waiting, not_found, check_experiment_readiness,
  with_latency, with_error_rate, query_metric_pair, on_ok, metric_of, query_all_metrics, map_name,
  map_namespace, experiment_namespace, is_completed, classified, score, assess, with_experiment,
  reconcile_impact_map,
}

ready-is_terminal :
    (status : ChaosExperimentStatus) (s c : String)
    → check_experiment_readiness status ≡ ready s c
    → is_terminal status.phase ≡ true
unfolding check_experiment_readiness
ready-is_terminal status s c h = elim (Bool-cases (is_terminal status.phase)) [
  | inl over ↦ over
  | inr going ↦ ground (arith, h, going)
]

module _ {F DateTime TimeDelta : Type 0} (float : Float F) (chrono : Chrono DateTime TimeDelta)
    (clients : Clients F) (m : ChaosImpactMap F) where
  -- The client said that the experiment is over.
  abbrev pub IsOver : Type 0
  IsOver =
      (status : ChaosExperimentStatus) × (log : List (Call F)) × (clients.get_experiment_status
          (experiment_namespace clients m) m.spec.experiment_ref.name log
        ≡ ok status)
      × (is_terminal status.phase ≡ true)

  -- A report of a finished map is one of a finished experiment; any other names no service.
  abbrev pub IsReport : ChaosImpactMapStatus F → Type 0
  IsReport status =
      (status.phase ≡ AnalysisPhase.completed) × IsOver
      ⊎ (status.phase ≢ AnalysisPhase.completed) × (status.affected_services ≡ [])

  abbrev pub Permitted : Call F → Type 0
  Permitted (Call.get_experiment_status ns name) =
      (is_completed clients m ≡ false)
      × (ns ≡ experiment_namespace clients m)
      × (name ≡ m.spec.experiment_ref.name)
  Permitted (Call.get_experiment_spec ns name) =
      (is_completed clients m ≡ false)
      × IsOver
      × (ns ≡ experiment_namespace clients m)
      × (name ≡ m.spec.experiment_ref.name)
  Permitted (Call.query_vector_at query time) = (is_completed clients m ≡ false) × IsOver
  Permitted (Call.query_service_graph namespaces) = (is_completed clients m ≡ false) × IsOver
  Permitted (Call.patch_impact_map_status ns name status) =
      (is_completed clients m ≡ false)
      × (ns ≡ map_namespace clients m)
      × (name ≡ map_name clients m)
      × IsReport status

  module _ (unfinished : is_completed clients m ≡ false) where
    module _ (over : IsOver) where
      pair-Permitted :
          (ns_filter : String) (tw : TimeWindows) (build : String → String → String)
          → Emits Permitted (query_metric_pair clients ns_filter tw build)
      pair-Permitted ns_filter tw build =
          >>=-Emits Permitted (query_vector clients _ _) _
            (request-Emits Permitted _ _ (unfinished, over))
            λ baseline.
              >>=-Emits Permitted (query_vector clients _ _) _
                (request-Emits Permitted _ _ (unfinished, over))
                λ during. pure-Emits Permitted (record { baseline = baseline; during = during })

      on_ok-Permitted :
          {A B : Type 0} (what : String) (k : A → Op clients (Result String B))
          → ((a : A) → Emits Permitted (k a))
          → (r : Result OperatorError A) → Emits Permitted (on_ok clients {B = B} what k r)
      on_ok-Permitted what k h (ok a) = h a
      on_ok-Permitted what k h (err e) = pure-Emits Permitted _

      metric_of-Permitted :
          {B : Type 0} (tw : TimeWindows) (what : String) (build : String → String → String)
          (k : MetricPair F → Op clients (Result String B))
          → ((pair : MetricPair F) → Emits Permitted (k pair))
          → Emits Permitted (metric_of clients {B = B} m.spec tw what build k)
      metric_of-Permitted tw what build k h =
          >>=-Emits Permitted (attempt _) (on_ok clients what k)
            (attempt-Emits Permitted _ (pair-Permitted _ tw build)) (on_ok-Permitted what k h)

      metrics-Permitted : (tw : TimeWindows) → Emits Permitted (query_all_metrics clients m.spec tw)
      metrics-Permitted tw =
          metric_of-Permitted tw "latency" build_latency_query (with_latency clients m.spec tw)
            λ latency.
              metric_of-Permitted tw "error rate" build_error_rate_query
                (with_error_rate clients m.spec tw latency)
                λ error_rate.
                  metric_of-Permitted tw "throughput" build_throughput_query _ λ throughput.
                    pure-Emits Permitted (
                      ok (record {
                        latency = latency;
                        error_rate = error_rate;
                        throughput = throughput;
                      }))

      found-Permitted :
          (affected : List (AffectedService F)) (spec : ChaosExperimentSpec)
          (r : Result OperatorError ServiceGraph)
          → Emits Permitted (classify_found clients m affected spec r)
      found-Permitted affected spec (ok graph) = returned-Emits Permitted _
      found-Permitted affected spec (err e) = pure-Emits Permitted affected

      spec-Permitted :
          (affected : List (AffectedService F))
          (graph : List String → List (Call F) → Result OperatorError ServiceGraph)
          (r : Result OperatorError ChaosExperimentSpec)
          → Emits Permitted (classify_with clients m affected graph r)
      spec-Permitted affected graph (ok spec) =
          attempt-request->>= Permitted _ _ (classify_found clients m affected spec)
            (unfinished, over) (λ r _ _. found-Permitted affected spec r)
      spec-Permitted affected graph (err e) = pure-Emits Permitted affected

      classified-Permitted :
          (affected : List (AffectedService F))
          (graph : Option (List String → List (Call F) → Result OperatorError ServiceGraph))
          → Emits Permitted (classified clients m affected graph)
      classified-Permitted affected none = pure-Emits Permitted affected
      classified-Permitted affected (some graph) =
          attempt-request->>= Permitted _ _ (classify_with clients m affected graph)
            (unfinished, over, refl, refl) (λ r _ _. spec-Permitted affected graph r)

      score-Permitted :
          (r : Result String (MetricsSnapshot F)) → Emits Permitted (score clients float chrono m r)
      unfolding build_completed_status
      score-Permitted (err message) =
          request-Emits Permitted _ _ (unfinished, refl, refl, inr ((λ h. cc h), refl))
      score-Permitted (ok metrics) =
          let (scanned, affected) = compute_affected_services float metrics m.spec.min_impact in
          >>=-Emits Permitted (classified clients m affected clients.query_service_graph)
            (λ services. patch_status clients m (build_completed_status scanned services))
            (classified-Permitted affected clients.query_service_graph)
            (λ services. request-Emits Permitted _ _ (unfinished, refl, refl, inl (refl, over)))

    assess-Permitted :
        (r : ExperimentReadiness)
        → ((s c : String) → r ≡ ready s c → IsOver)
        → Emits Permitted (assess clients float chrono m r)
    assess-Permitted (waiting message) over =
        request-Emits Permitted _ _ (unfinished, refl, refl, inr ((λ h. cc h), refl))
    assess-Permitted (not_found message) over =
        request-Emits Permitted _ _ (unfinished, refl, refl, inr ((λ h. cc h), refl))
    assess-Permitted (ready s c) over =
        >>=-Emits Permitted
          (returned (calculate_time_windows chrono s c m.spec.prometheus.baseline_window)) _
          (returned-Emits Permitted _)
          λ tw.
            >>=-Emits Permitted (query_all_metrics clients m.spec tw) (score clients float chrono m)
              (metrics-Permitted (over s c refl) tw) (score-Permitted (over s c refl))

    fetched-Permitted :
        (r : Result OperatorError ChaosExperimentStatus) (log : List (Call F))
        → clients.get_experiment_status
            (experiment_namespace clients m)
            m.spec.experiment_ref.name
            log
          ≡ r
        → Emits Permitted (with_experiment clients float chrono m r)
    fetched-Permitted (ok status) log fetched =
        assess-Permitted (check_experiment_readiness status)
          (λ s c h. (status, log, fetched, ready-is_terminal status s c h))
    fetched-Permitted (err e) log fetched =
        request-Emits Permitted _ _ (unfinished, refl, refl, inr ((λ h. cc h), refl))

  -- Whatever the clients answer, a reconcile of an impact map that is completed calls nothing. Else it
  -- reads its own experiment, queries the metrics and the graph only where the experiment was seen to
  -- be over, and writes only its own status, which is completed only for such an experiment and names
  -- no service where it is not completed.
  pub reconcile_impact_map-Permitted : Emits Permitted (reconcile_impact_map clients float chrono m)
  unfolding reconcile_impact_map
  reconcile_impact_map-Permitted =
      if-Emits Permitted (is_completed clients m) _ _ (λ _. pure-Emits Permitted tt)
        λ unfinished.
          attempt-request->>= Permitted _ _ (with_experiment clients float chrono m)
            (unfinished, refl, refl) (fetched-Permitted unfinished)
