-- ===== src/ImpactMap.antt =====
-- src/operator/impact_map_reconciler.rs: the plain functions. A `HashMap` or `HashSet` is a list; the
-- source sorts what it takes from their iteration order. The reconciler is in `Reconcile`.
pub mod Traversal
pub mod Reach
pub mod Scores
pub mod Order
pub mod Queries
pub mod Reconcile
pub mod Metrics
pub mod Times
pub mod Outcomes
pub mod Endings
pub mod Classes
pub mod Reports
use ch_chaos.Base.{
  ℕ, zero, suc, ◌+◌, ◌*◌, ◌/◌, String, Bool, true, false, not, ◌||◌, ◌&&◌, Option, none, some, List,
  [], ◌∷◌, ◌++◌, map, min, if◌then◌else◌, unwrap_or, and_then, length, leb, ◌%◌, ◌^◌, is_empty,
  format, decimal, any, sort_by, str_eq, text_le,
}
use ch_chaos.Types.{
  AnalysisPhase, DegradationDirection, up, down, ImpactType, direct, indirect, is_edge_chaos,
  EdgeTarget,
}
use ch_chaos.Crd.{
  AffectedService, MetricImpact, ServiceMetrics, ChaosExperimentSpec, ChaosImpactMapStatus,
  ImpactMapSummary, default_impact_map_status,
}
use ch_chaos.Crd.Impact.{calculate_impact}
use ch_chaos.Float.{Float}
use ch_chaos.Graph.{ServiceKey, ServiceGraph, key_eq, lookup_key}
use ch_chaos.Experiment.{edge_of}
pub use ch_chaos.ImpactMap.Traversal.{Search}
unfoldable pub use ch_chaos.ImpactMap.Traversal.{
  Adjacency, contains, offer, scan, neighbors, search_loop, edge_count, reachable_from,
}

pub record MetricPair (F : Type 0) : Type 0 where
  pub baseline : List (ServiceKey × F)
  pub during : List (ServiceKey × F)

pub record MetricsSnapshot (F : Type 0) : Type 0 where
  pub latency : MetricPair F
  pub error_rate : MetricPair F
  pub throughput : MetricPair F

-- `a.workload.cmp(&b.workload).then(a.namespace.cmp(&b.namespace))` is not `Greater`.
abbrev pub key_le : ServiceKey → ServiceKey → Bool
key_le a b =
    if str_eq a.workload b.workload
    then text_le a.namespace b.namespace
    else text_le a.workload b.workload

-- `HashSet::insert`
abbrev pub insert_set : ServiceKey → List ServiceKey → List ServiceKey
insert_set k ks = if contains ks k then ks else k ∷ ks

unfoldable pub extend : {V : Type 0} → List (ServiceKey × V) → List ServiceKey → List ServiceKey
extend [] ks = ks
extend ((k, v) ∷ m) ks = extend m (insert_set k ks)

module _ {F : Type 0} (float : Float F) where
  unfoldable pub discover_services : MetricsSnapshot F → List ServiceKey
  unfolding extend sort_by
  discover_services m = sort_by key_le (
      extend m.throughput.during (
        extend m.throughput.baseline (
          extend m.error_rate.during (
            extend m.error_rate.baseline
              (extend m.latency.during (extend m.latency.baseline []))))))

  abbrev pub reading : List (ServiceKey × F) → ServiceKey → F
  reading m svc = unwrap_or (lookup_key svc m) (float.literal "0.0")

  unfoldable pub score_metric : MetricPair F → ServiceKey → DegradationDirection → MetricImpact F
  unfolding calculate_impact
  score_metric pair svc direction =
      let baseline = reading pair.baseline svc in
      let during = reading pair.during svc in
      record {
        baseline = baseline;
        during = during;
        impact_score = (calculate_impact float baseline during direction 100).0;
      }

  unfoldable pub score_error_rate : MetricPair F → ServiceKey → MetricImpact F
  unfolding calculate_impact
  score_error_rate pair svc =
      let baseline = reading pair.baseline svc in
      let during = reading pair.during svc in
      record {
        baseline = baseline;
        during = during;
        impact_score =
            if float.eq baseline (float.literal "0.0")
            then min (float.as_u32 (float.round (float.mul during (float.literal "100.0")))) 100
            else (calculate_impact float baseline during up 100).0;
      }

  abbrev pub score_service : MetricsSnapshot F → ServiceKey → AffectedService F
  score_service metrics svc =
      let lat = score_metric metrics.latency svc up in
      let error = score_error_rate metrics.error_rate svc in
      let thr = score_metric metrics.throughput svc down in
      record {
        workload = svc.workload;
        namespace = svc.namespace;
        impact_score = (lat.impact_score + error.impact_score + thr.impact_score) / 3;
        impact_type = none;
        metrics = record { latency_p99 = lat; error_rate = error; throughput = thr };
      }

  unfoldable pub affected_of : MetricsSnapshot F → ℕ → List ServiceKey → List (AffectedService F)
  affected_of metrics min_impact [] = []
  affected_of metrics min_impact (svc ∷ rest) =
      let a = score_service metrics svc in
      let others = affected_of metrics min_impact rest in
      if leb min_impact a.impact_score then a ∷ others else others

  -- `b.impact_score.cmp(&a.impact_score)`
  abbrev pub worse_first : AffectedService F → AffectedService F → Bool
  worse_first a b = leb b.impact_score a.impact_score

  unfoldable pub compute_affected_services : MetricsSnapshot F → ℕ → ℕ × List (AffectedService F)
  unfolding discover_services affected_of sort_by
  compute_affected_services metrics min_impact =
      let all_services = discover_services metrics in
      (
        length all_services % 2 ^ 32,
        sort_by worse_first (affected_of metrics min_impact all_services),
      )

unfoldable pub resolve_workload_key : String → String → List (ServiceKey × ServiceKey) → ServiceKey
resolve_workload_key service_name namespace mapping =
    let key : ServiceKey = record { workload = service_name; namespace = namespace } in
    unwrap_or (lookup_key key mapping) key

-- the namespace of the edge's services
abbrev pub chaos_namespace : ChaosExperimentSpec → String → String
chaos_namespace spec default_ns =
    unwrap_or spec.target_namespace (unwrap_or (and_then spec.target (λ t. t.namespace)) default_ns)

module _ {F : Type 0} where
  abbrev pub classify : List ServiceKey → AffectedService F → AffectedService F
  classify reachable svc =
      let key : ServiceKey = record { workload = svc.workload; namespace = svc.namespace } in
      record svc { impact_type = some (if contains reachable key then direct else indirect) }

  abbrev classify_reached :
      Option (List ServiceKey) → List (AffectedService F) → Option (List (AffectedService F))
  classify_reached none affected = none
  classify_reached (some reachable) affected = some (map (classify reachable) affected)

  abbrev classify_edge :
      Option EdgeTarget
      → String
      → ServiceGraph
      → List (AffectedService F)
      → Option (List (AffectedService F))
  classify_edge none target_ns graph affected = some affected
  classify_edge (some edge) target_ns graph affected =
      classify_reached
        (reachable_from graph.adjacency
          (resolve_workload_key edge.destination_service target_ns graph.service_to_workload))
        affected

  -- `none` would be a search out of fuel.
  unfoldable pub classify_services :
      List (AffectedService F)
      → ChaosExperimentSpec
      → ServiceGraph
      → String
      → Option (List (AffectedService F))
  classify_services affected spec graph default_ns =
      if is_edge_chaos spec.scenario
      then classify_edge (edge_of spec) (chaos_namespace spec default_ns) graph affected
      else some affected

  abbrev highest : List (AffectedService F) → String
  highest [] = ""
  highest (s ∷ rest) =
      format (" Highest impact: " ∷ s.workload ∷ " (" ∷ decimal s.impact_score ∷ "/100)" ∷ [])

  unfoldable pub build_completed_status : ℕ → List (AffectedService F) → ChaosImpactMapStatus F
  build_completed_status total_scanned affected = record {
    phase = AnalysisPhase.completed;
    summary = some (record {
      total_scanned = total_scanned;
      total_affected = length affected % 2 ^ 32;
      message = some (
          format (
            decimal (length affected % 2 ^ 32)
            ∷ " of "
            ∷ decimal total_scanned
            ∷ " services affected."
            ∷ highest affected
            ∷ []));
    });
    affected_services = affected;
    message = none;
  }

  abbrev pub build_pending_status : String → ChaosImpactMapStatus F
  build_pending_status message = record default_impact_map_status {
    phase = AnalysisPhase.pending;
    message = some message;
  }

  abbrev pub build_failed_status : String → ChaosImpactMapStatus F
  build_failed_status message = record default_impact_map_status {
    phase = AnalysisPhase.failed;
    message = some message;
  }
