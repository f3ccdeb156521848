-- ===== src/Graph/Traffic.antt =====
-- The service graph (src/operator/graph_builder.rs) and the traffic that it is built from.
use text.Mathlib.TextEquality.{eq_iff}
use ch_chaos.Base.{◌≡◌, ◌≢◌, ◌↔◌, ◌⊎◌, true, ◌&&◌, ◌||◌, some, List, [], ◌∷◌, arith, Any}
use ch_chaos.Float.{Float}
use ch_chaos.Graph.{
  PrometheusMetric, ServiceKey, ServiceGraph, key_eq, push_key, label, add_metric, add_metrics,
  empty_graph, build_service_graph,
}
use ch_chaos.ImpactMap.{Adjacency, contains, neighbors, reachable_from}
use ch_chaos.ImpactMap.Reach
use ch_chaos.ImpactMap.Reach.{Walk}
use ch_chaos.ImpactMap.Reach.Visited.{key_eq_iff, contains-append}
use ch_chaos.ImpactMap.Reach.Correct.{reachable_from_correct}

module _ {F : Type 0} (float : Float F) where
  -- A metric of traffic between the workloads, both of them known.
  abbrev pub Observed : ServiceKey → ServiceKey → PrometheusMetric F → Type 0
  Observed u v m =
      (u.workload ≢ "")
      × (v.workload ≢ "")
      × (label float m "source_workload" ≡ u.workload)
      × (label float m "source_workload_namespace" ≡ u.namespace)
      × (label float m "destination_workload" ≡ v.workload)
      × (label float m "destination_workload_namespace" ≡ v.namespace)

  push_key_lem :
      (src dst u v : ServiceKey) (g : Adjacency)
      → contains (neighbors (push_key src dst g) u) v
        ≡ (contains (neighbors g u) v || key_eq src u && key_eq dst v)
  push_key_lem src dst u v [] = ground arith
  push_key_lem src dst u v ((j, vs) ∷ g) = ground (
    arith,
    push_key_lem src dst u v g,
    contains-append vs (dst ∷ []) v,
    key_eq_iff j src,
    key_eq_iff j u,
    key_eq_iff src u,
  )

  add_metric_iff :
      (g : ServiceGraph) (m : PrometheusMetric F) (u v : ServiceKey)
      → (contains (neighbors (add_metric float m g).adjacency u) v ≡ true)
        ↔ ((contains (neighbors g.adjacency u) v ≡ true) ⊎ Observed u v m)
  add_metric_iff g m u v =
      let sw = label float m "source_workload" in
      let sn = label float m "source_workload_namespace" in
      let dw = label float m "destination_workload" in
      let dn = label float m "destination_workload_namespace" in
      let src : ServiceKey = record { workload = sw; namespace = sn } in
      let dst : ServiceKey = record { workload = dw; namespace = dn } in
      ground (
        arith,
        push_key_lem src dst u v g.adjacency,
        eq_iff sw "",
        eq_iff dw "",
        eq_iff sw u.workload,
        eq_iff sn u.namespace,
        eq_iff dw v.workload,
        eq_iff dn v.namespace,
      )

  add_metrics_iff :
      (ms : List (PrometheusMetric F)) (g : ServiceGraph) (u v : ServiceKey)
      → (contains (neighbors (add_metrics float g ms).adjacency u) v ≡ true)
        ↔ ((contains (neighbors g.adjacency u) v ≡ true) ⊎ Any (Observed u v) ms)
  unfolding add_metrics
  add_metrics_iff [] g u v = ground arith
  add_metrics_iff (m ∷ ms) g u v =
      ground (arith, add_metrics_iff ms (add_metric float m g) u v, add_metric_iff g m u v)

  module _ (metrics : List (PrometheusMetric F)) where
    edges_iff :
        (u v : ServiceKey)
        → (contains (neighbors (build_service_graph float metrics).adjacency u) v ≡ true)
          ↔ Any (Observed u v) metrics
    unfolding build_service_graph
    edges_iff u v = ground (arith, add_metrics_iff metrics empty_graph u v)

    -- the chains of observed traffic from `start`
    pub data Traffic (start : ServiceKey) : ServiceKey → Type 0 where
      here : Traffic start start
      step : {u v : ServiceKey} → Traffic start u → Any (Observed u v) metrics → Traffic start v

    walk→traffic :
        {start k : ServiceKey}
        → Walk (build_service_graph float metrics).adjacency start k
        → Traffic start k
    walk→traffic Reach.here = here
    walk→traffic (Reach.step {u} {v} w e) = step (walk→traffic w) ((edges_iff u v).0 e)

    traffic→walk :
        {start k : ServiceKey}
        → Traffic start k
        → Walk (build_service_graph float metrics).adjacency start k
    traffic→walk here = Reach.here
    traffic→walk (step {u} {v} t o) = Reach.step (traffic→walk t) ((edges_iff u v).1 o)

    -- On the graph built from the metrics the search ends, and it returns exactly the services that a
    -- chain of observed traffic between known workloads leads to from the start.
    pub build_service_graph-reachable :
        (start : ServiceKey)
        → (r : List ServiceKey) × (reachable_from
              (build_service_graph float metrics).adjacency
              start
            ≡ some r)
          × ((k : ServiceKey) → (contains r k ≡ true) ↔ Traffic start k)
    build_service_graph-reachable start =
        let (r, ends, found) =
          reachable_from_correct (build_service_graph float metrics).adjacency start in
        (r, ends, λ k. (λ h. walk→traffic ((found k).0 h), λ t. (found k).1 (traffic→walk t)))
