-- ===== src/Graph/Edges.antt =====
-- The search for an edge, `find_edge` (src/operator/graph_builder.rs).
use text.Mathlib.TextEquality.{eq_iff}
use ch_chaos.Base.{
  String, ◌≡◌, ◌≢◌, refl, ◌↔◌, inl, inr, Bool, true, false, Option, none, some, List, [], ◌∷◌, ok,
  err, arith, find, All, Any, Bool-cases, ap, ◌∙◌,
}
use ch_chaos.Types.{EdgeInfo}
use ch_chaos.Errors.{validation, edge_not_found}
use ch_chaos.Float.{Float}
use ch_chaos.Graph.{
  PrometheusMetric, GraphBuilderConfig, label, is_edge, find_edge, edge_info_from_metric,
}

module _ {A : Type 0} (p : A → Bool) where
  find-some : (l : List A) (a : A) → find p l ≡ some a → (p a ≡ true) × Any (λ x. x ≡ a) l
  find-some [] a h = ground arith
  find-some (x ∷ l) a h = ground (arith, find-some l a)

  find-none : (l : List A) → (find p l ≡ none) ↔ All (λ x. p x ≡ false) l
  find-none [] = ground arith
  find-none (x ∷ l) = ground (arith, find-none l)

module _ {F : Type 0} (float : Float F) (config : GraphBuilderConfig F)
    (metrics : List (PrometheusMetric F)) (source destination namespace : String) where
  abbrev pub IsBetween : PrometheusMetric F → Type 0
  IsBetween m =
      (label float m "source_workload" ≡ source)
      × (label float m "destination_service_name" ≡ destination)
      × (label float m "source_workload_namespace" ≡ namespace)

  is_edge_iff :
      (m : PrometheusMetric F) → (is_edge float source destination namespace m ≡ true) ↔ IsBetween m
  is_edge_iff m = ground (
    arith,
    eq_iff (label float m "source_workload") source,
    eq_iff (label float m "destination_service_name") destination,
    eq_iff (label float m "source_workload_namespace") namespace,
  )

  no_edge_iff :
      (ms : List (PrometheusMetric F))
      → All (λ m. is_edge float source destination namespace m ≡ false) ms
        ↔ All (λ m. ¬ IsBetween m) ms
  no_edge_iff [] = (λ h. h, λ h. h)
  no_edge_iff (m ∷ ms) =
      let (to, back) = no_edge_iff ms in
      (
        λ h. (λ b. cc (h.0, (is_edge_iff m).1 b), to h.1),
        λ h. (
          elim (Bool-cases (is_edge float source destination namespace m)) [
            | inl yes_edge ↦ absurd (h.0 ((is_edge_iff m).0 yes_edge))
            | inr other ↦ other
          ],
          back h.1,
        ),
      )

  info_of :
      (ms : List (PrometheusMetric F)) (m : PrometheusMetric F) (info : EdgeInfo F)
      → Any (λ x. x ≡ m) ms
      → edge_info_from_metric float m ≡ info
      → Any (λ x. edge_info_from_metric float x ≡ info) ms
  info_of [] m info h e = h
  info_of (x ∷ ms) m info (inl h) e = inl (ap (edge_info_from_metric float) h ∙ e)
  info_of (x ∷ ms) m info (inr h) e = inr (info_of ms m info h e)

  found :
      (info : EdgeInfo F) (m : PrometheusMetric F)
      → find (is_edge float source destination namespace) metrics ≡ some m
      → find_edge float config metrics source destination namespace ≡ ok info
      → (edge_info_from_metric float m ≡ info) × (float.ge info.rps config.min_rps ≡ true)
  unfolding find_edge edge_info_from_metric
  found info m e h = ground (arith, e, h)

  fields :
      (info : EdgeInfo F) (m : PrometheusMetric F)
      → IsBetween m
      → edge_info_from_metric float m ≡ info
      → (info.source_workload ≡ source)
        × (info.destination_service ≡ destination)
        × (info.source_namespace ≡ namespace)
  unfolding edge_info_from_metric
  fields info m b e = ground arith

  no_edge :
      find (is_edge float source destination namespace) metrics ≡ none
      → find_edge float config metrics source destination namespace
        ≡ err (validation (edge_not_found source destination))
  unfolding find_edge
  no_edge e = ground arith

  some_edge :
      (m : PrometheusMetric F)
      → find (is_edge float source destination namespace) metrics ≡ some m
      → find_edge float config metrics source destination namespace
        ≢ err (validation (edge_not_found source destination))
  unfolding find_edge
  some_edge m e = ground arith

  -- An edge that is found is that of one of the metrics, runs from the source workload in the
  -- namespace to the destination service, and carries at least the least traffic; the edge is reported
  -- as not found exactly when no metric is of such an edge.
  pub find_edge_lem :
      ((info : EdgeInfo F)
        → find_edge float config metrics source destination namespace ≡ ok info
        → (info.source_workload ≡ source)
          × (info.destination_service ≡ destination)
          × (info.source_namespace ≡ namespace)
          × (float.ge info.rps config.min_rps ≡ true)
          × Any (λ m. edge_info_from_metric float m ≡ info) metrics)
      × ((find_edge float config metrics source destination namespace
            ≡ err (validation (edge_not_found source destination)))
          ↔ All (λ m. ¬ IsBetween m) metrics)
  find_edge_lem = by_search (find (is_edge float source destination namespace) metrics) refl
    where
      by_search :
          (o : Option (PrometheusMetric F))
          → find (is_edge float source destination namespace) metrics ≡ o
          → ((info : EdgeInfo F)
              → find_edge float config metrics source destination namespace ≡ ok info
              → (info.source_workload ≡ source)
                × (info.destination_service ≡ destination)
                × (info.source_namespace ≡ namespace)
                × (float.ge info.rps config.min_rps ≡ true)
                × Any (λ m. edge_info_from_metric float m ≡ info) metrics)
            × ((find_edge float config metrics source destination namespace
                  ≡ err (validation (edge_not_found source destination)))
                ↔ All (λ m. ¬ IsBetween m) metrics)
      by_search none e = (
        λ info h. cc (no_edge e, h),
        (λ _. (no_edge_iff metrics).0 ((find-none _ metrics).0 e), λ _. no_edge e),
      )
      by_search (some m) e =
          let (is, here) = find-some _ metrics m e in
          (
            λ info h.
                let (same, enough) = found info m e h in
                let (a, b, c) = fields info m ((is_edge_iff m).0 is) same in
                (a, b, c, enough, info_of metrics m info here same),
            (
              λ h. absurd (some_edge m e h),
              λ h. cc (e, (find-none _ metrics).1 ((no_edge_iff metrics).1 h)),
            ),
          )
