-- ===== src/ImpactMap/Metrics.antt =====
-- The six queries of an impact map (`query_all_metrics` of src/operator/impact_map_reconciler.rs), and
-- what comes of their answers.
use ch_chaos.Base.{
  ◌≡◌, refl, sym, subst, Outcome, String, List, [], ◌∷◌, Result, ok, err, done, ◌⊎◌, inl, inr,
  attempt, unwrap_or, format, arith,
}
use ch_chaos.Base.Total.{done->>=}
use mathlib.Core.Option
use ch_chaos.Errors.{OperatorError, operator_text}
use ch_chaos.Crd.{ChaosImpactMapSpec}
use ch_chaos.Graph.{ServiceKey}
use ch_chaos.ImpactMap.{MetricPair, MetricsSnapshot}
use ch_chaos.ImpactMap.Queries.{
  build_namespace_filter, build_latency_query, build_error_rate_query, build_throughput_query,
}
use ch_chaos.ImpactMap.Reconcile.{
  Op, metric_of, Call, Clients, TimeWindows, namespace_filter, query_metric_pair, on_ok,
  query_all_metrics, with_latency, with_error_rate,
}

module _ {F : Type 0} (clients : Clients F) (spec : ChaosImpactMapSpec) (tw : TimeWindows) where
  abbrev namespaces : String
  namespaces = unwrap_or (Option.map (λ s. build_namespace_filter s.namespaces) spec.scope) ""

  module _ (build : String → String → String) (log : List (Call F)) where
    -- the query over the window before the chaos, and the one over the window of the chaos
    abbrev before : String
    before = build namespaces tw.baseline_rate_window

    abbrev during : String
    during = build namespaces tw.chaos_rate_window

    abbrev asked : List (Call F)
    asked = Call.query_vector_at before tw.baseline_time ∷ log

    abbrev asked_both : List (Call F)
    asked_both = Call.query_vector_at during tw.chaos_time ∷ asked

    -- Both queries of a metric were answered: each at its own time and over its own window.
    pub data Measured : MetricPair F → List (Call F) → Type 0 where
      measured :
          {old new : List (ServiceKey × F)}
          → clients.query_vector_at before tw.baseline_time log ≡ ok old
          → clients.query_vector_at during tw.chaos_time asked ≡ ok new
          → Measured (record { baseline = old; during = new }) asked_both

    -- One of the two queries gave this error.
    pub data Unmeasured : OperatorError → List (Call F) → Type 0 where
      first_failed :
          {x : OperatorError}
          → clients.query_vector_at before tw.baseline_time log ≡ err x
          → Unmeasured x asked
      second_failed :
          {old : List (ServiceKey × F)} {x : OperatorError}
          → clients.query_vector_at before tw.baseline_time log ≡ ok old
          → clients.query_vector_at during tw.chaos_time asked ≡ err x
          → Unmeasured x asked_both

    Ends : Type 0
    Ends =
        ((pair : MetricPair F) × (calls : List (Call F)) × Measured pair calls
          × (attempt (query_metric_pair clients (namespace_filter clients spec) tw build) log
              ≡ (done (ok pair), calls)))
        ⊎ (x : OperatorError) × (calls : List (Call F)) × Unmeasured x calls
          × (attempt (query_metric_pair clients (namespace_filter clients spec) tw build) log
              ≡ (done (err x), calls))

    both_asked : Ends
    unfolding Ends
    both_asked = first _ refl
      where
        second :
            {old : List (ServiceKey × F)} (r : Result OperatorError (List (ServiceKey × F)))
            → clients.query_vector_at before tw.baseline_time log ≡ ok old
            → clients.query_vector_at during tw.chaos_time asked ≡ r
            → Ends
        second (ok new) e f = inl (_, _, measured e f, ground (arith, e, f))
        second (err x) e f = inr (_, _, second_failed e f, ground (arith, e, f))

        first :
            (r : Result OperatorError (List (ServiceKey × F)))
            → clients.query_vector_at before tw.baseline_time log ≡ r
            → Ends
        first (ok old) e = second _ e refl
        first (err x) e = inr (_, _, first_failed e, ground (arith, e))

  abbrev failure : String → OperatorError → String
  failure what x = format (what ∷ " query failed: " ∷ operator_text x ∷ [])

  -- What comes of the queries: the metrics, of latency, error rate and throughput in this order, or the
  -- text of the first failure, and the calls made by then.
  pub data Metrics (log : List (Call F))
      : Result String (MetricsSnapshot F) → List (Call F) → Type 0 where
    no_latency :
        {x : OperatorError} {calls : List (Call F)}
        → Unmeasured build_latency_query log x calls
        → Metrics log (err (failure "latency" x)) calls
    no_error_rate :
        {latency : MetricPair F} {x : OperatorError} {l calls : List (Call F)}
        → Measured build_latency_query log latency l
        → Unmeasured build_error_rate_query l x calls
        → Metrics log (err (failure "error rate" x)) calls
    no_throughput :
        {latency error_rate : MetricPair F} {x : OperatorError} {l l' calls : List (Call F)}
        → Measured build_latency_query log latency l
        → Measured build_error_rate_query l error_rate l'
        → Unmeasured build_throughput_query l' x calls
        → Metrics log (err (failure "throughput" x)) calls
    all_measured :
        {latency error_rate throughput : MetricPair F} {l l' calls : List (Call F)}
        → Measured build_latency_query log latency l
        → Measured build_error_rate_query l error_rate l'
        → Measured build_throughput_query l' throughput calls
        → Metrics log
            (ok (record { latency = latency; error_rate = error_rate; throughput = throughput }))
            calls

  module _ {B : Type 0} (what : String) (build : String → String → String)
      (k : MetricPair F → Op clients (Result String B)) (log calls : List (Call F)) where
    metric-measured :
        (pair : MetricPair F)
        → attempt (query_metric_pair clients (namespace_filter clients spec) tw build) log
          ≡ (done (ok pair), calls)
        → metric_of clients spec tw what build k log ≡ k pair calls
    metric-measured pair e =
        done->>= (attempt (query_metric_pair clients (namespace_filter clients spec) tw build))
          (on_ok clients what k) log e

    metric-failed :
        (x : OperatorError)
        → attempt (query_metric_pair clients (namespace_filter clients spec) tw build) log
          ≡ (done (err x), calls)
        → metric_of clients spec tw what build k log ≡ (done (err (failure what x)), calls)
    metric-failed x e =
        done->>= (attempt (query_metric_pair clients (namespace_filter clients spec) tw build))
          (on_ok clients what k) log e

  abbrev Answered :
      List (Call F)
      → Outcome OperatorError (Result String (MetricsSnapshot F)) × List (Call F)
      → Type 0
  Answered log o =
      (r : Result String (MetricsSnapshot F)) × (calls : List (Call F)) × (o ≡ (done r, calls))
      × Metrics log r calls

  -- The queries end, without a panic, in one of these cases.
  pub query_all_metrics-Metrics :
      (log : List (Call F)) → Answered log (query_all_metrics clients spec tw log)
  unfolding Ends
  query_all_metrics-Metrics log = elim (both_asked build_latency_query log) [
    | inr (x, calls, u, e) ↦
        (_, calls, metric-failed "latency" build_latency_query _ log calls x e, no_latency u)
    | inl (latency, l, m, e) ↦
        subst (Answered log)
          (sym (
            metric-measured "latency" build_latency_query (with_latency clients spec tw) log l
              latency e))
          (error_rate_asked m)
  ]
    where
      throughput_asked :
          {latency error_rate : MetricPair F} {l l' : List (Call F)}
          → Measured build_latency_query log latency l
          → Measured build_error_rate_query l error_rate l'
          → Answered log (with_error_rate clients spec tw latency error_rate l')
      throughput_asked {l' = l'} m n = elim (both_asked build_throughput_query l') [
        | inr (x, calls, u, e) ↦ (
          _,
          calls,
          metric-failed "throughput" build_throughput_query _ l' calls x e,
          no_throughput m n u,
        )
        | inl (throughput, calls, o, e) ↦ (
          _,
          calls,
          metric-measured "throughput" build_throughput_query _ l' calls throughput e,
          all_measured m n o,
        )
      ]

      error_rate_asked :
          {latency : MetricPair F} {l : List (Call F)}
          → Measured build_latency_query log latency l
          → Answered log (with_latency clients spec tw latency l)
      error_rate_asked {latency = latency} {l = l} m = elim (both_asked build_error_rate_query l) [
        | inr (x, calls, u, e) ↦ (
          _,
          calls,
          metric-failed "error rate" build_error_rate_query _ l calls x e,
          no_error_rate m u,
        )
        | inl (error_rate, l', n, e) ↦
            subst (Answered log)
              (sym (
                metric-measured "error rate" build_error_rate_query
                  (with_error_rate clients spec tw latency) l l' error_rate e))
              (throughput_asked m n)
      ]
