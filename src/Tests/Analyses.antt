-- ===== src/Tests/Analyses.antt =====
-- The analyses and the impact maps on concrete inputs.
use ch_chaos.Base.{
  ◌≡◌, refl, true, false, ℕ, String, none, some, List, [], ◌∷◌, ok, pos, negsuc, ◌+◌, ◌-◌, ◌/◌,
  codes, parse_u64, decimal, ok_or,
}
use ch_chaos.Types.{Phase, DegradationDirection, EdgeTarget, is_edge_chaos}
use ch_chaos.Crd.{
  AffectedService, MetricImpact, ChaosAnalysis, ChaosExperimentStatus, ChaosImpactMap,
  ExperimentRef, PrometheusConfig, default_experiment_status,
}
use ch_chaos.Chrono.{Chrono}
use ch_chaos.Trace.{Emits}
use ch_chaos.JobBuilder.{default_meta}
use ch_chaos.Graph.{ServiceKey, ServiceGraph}
use ch_chaos.Experiment.{edge_of}
use ch_chaos.Analysis.{Clients, reconcile_analysis}
use ch_chaos.Analysis.Outcomes.{Permitted, reconcile_analysis-Permitted}
use ch_chaos.ImpactMap.{classify_services, chaos_namespace, resolve_workload_key}
use ch_chaos.ImpactMap.Outcomes.{AllClassified, classify_services_lem}
use ch_chaos.ImpactMap.Reconcile
use ch_chaos.ImpactMap.Reports
use ch_chaos.Analysis.Endings
use ch_chaos.Analysis.Endings.{reconcile_analysis-Ending}
use ch_chaos.ImpactMap.Endings as MapEndings
use ch_chaos.ImpactMap.Endings.{reconcile_impact_map-Ending}
use ch_chaos.ImpactMap.Reports.{reconcile_impact_map-Permitted}
use ch_chaos.Tests.Model.{float, latency_spec}

-- time and spans as counts of seconds
abbrev chrono : Chrono ℕ ℕ
chrono = record {
  parse_from_rfc3339 = λ s. ok_or (parse_u64 (codes s)) "no time";
  to_rfc3339 = decimal;
  seconds = λ z. elim z [ pos n ↦ some n | negsuc _ ↦ none ];
  add = λ t d. some (t + d);
  sub = λ t d. some (t - d);
  since = λ t u. t - u;
  half = λ d. d / 2;
  num_seconds = pos;
}

-- an experiment from second 1000 to second 1600
abbrev over : ChaosExperimentStatus
over = record default_experiment_status {
  phase = Phase.succeeded;
  started_at = some "1000";
  completed_at = some "1600";
}

abbrev answers : Clients ℕ
answers = record {
  get_experiment_status = λ _ _ _. ok over;
  patch_analysis_status = λ _ _ _ _. ok tt;
  query_at = λ _ _ _. ok 2000;
}

abbrev latency_ref : ExperimentRef
latency_ref = record { name = "latency"; namespace = some "chaos" }

abbrev source : PrometheusConfig
source = record { url = "http://prometheus:9090"; baseline_window = "10m" }

abbrev analysis : ChaosAnalysis ℕ
analysis = record {
  metadata = record default_meta { name = some "slower" };
  spec = record {
    experiment_ref = latency_ref;
    prometheus = source;
    query = "up";
    degradation_direction = DegradationDirection.up;
    success_criteria = record { max_impact = 40 };
  };
  status = none;
}

reconcile_analysis-Permitted_example :
    Emits
      (Permitted float chrono answers analysis)
      (reconcile_analysis float chrono answers analysis)
reconcile_analysis-Permitted_example = reconcile_analysis-Permitted float chrono answers analysis

abbrev impact_map : ChaosImpactMap ℕ
impact_map = record {
  metadata = record default_meta { name = some "mesh" };
  spec = record { experiment_ref = latency_ref; prometheus = source; scope = none; min_impact = 5 };
  status = none;
}

abbrev pay : ServiceKey
pay = record { workload = "pay"; namespace = "shop" }

abbrev mesh : ServiceGraph
mesh = record {
  adjacency = (pay, record { workload = "bank"; namespace = "shop" } ∷ []) ∷ [];
  service_to_workload = [];
}

abbrev map_answers : Reconcile.Clients ℕ
map_answers = record {
  get_experiment_status = λ _ _ _. ok over;
  get_experiment_spec = λ _ _ _. ok latency_spec;
  patch_impact_map_status = λ _ _ _ _. ok tt;
  query_vector_at = λ _ _ _. ok ((pay, 2000) ∷ []);
  query_service_graph = some (λ _ _. ok mesh);
}

reconcile_impact_map-Permitted_example :
    Emits
      (Reports.Permitted float chrono map_answers impact_map)
      (Reconcile.reconcile_impact_map map_answers float chrono impact_map)
reconcile_impact_map-Permitted_example =
    reconcile_impact_map-Permitted float chrono map_answers impact_map

abbrev hit : String → AffectedService ℕ
hit name =
    let same : MetricImpact ℕ = record { baseline = 1000; during = 2000; impact_score = 100 } in
    record {
      workload = name;
      namespace = "shop";
      impact_score = 100;
      impact_type = none;
      metrics = record { latency_p99 = same; error_rate = same; throughput = same };
    }

classify_services_lem_example :
    let affected = hit "bank" ∷ hit "mail" ∷ [] in
    (is_edge_chaos latency_spec.scenario ≡ false
      → classify_services affected latency_spec mesh "default" ≡ some affected)
    × ((edge : EdgeTarget)
        → is_edge_chaos latency_spec.scenario ≡ true
        → edge_of latency_spec ≡ some edge
        → let target =
            resolve_workload_key edge.destination_service
              (chaos_namespace latency_spec "default")
              mesh.service_to_workload in
          (classes : List (AffectedService ℕ)) × (classify_services affected latency_spec mesh
              "default"
            ≡ some classes)
          × AllClassified mesh.adjacency target affected classes)
classify_services_lem_example =
    classify_services_lem (hit "bank" ∷ hit "mail" ∷ []) latency_spec mesh "default"

reconcile_analysis-Ending_example :
    Endings.Ending float chrono answers analysis []
      (reconcile_analysis float chrono answers analysis [])
reconcile_analysis-Ending_example = reconcile_analysis-Ending float chrono answers analysis [] refl

reconcile_impact_map-Ending_example :
    MapEndings.Ending map_answers float chrono impact_map []
      (Reconcile.reconcile_impact_map map_answers float chrono impact_map [])
reconcile_impact_map-Ending_example =
    reconcile_impact_map-Ending map_answers float chrono impact_map [] refl
