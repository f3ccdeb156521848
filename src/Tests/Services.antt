-- ===== src/Tests/Services.antt =====
-- The graph, the impact map, the scores, the names and the durations on concrete inputs.
use mathlib.Core.List.{Perm, filter}
use native.Mathlib.Decide.{dec_le}
use Prim.Native.String.{len}
use ch_chaos.Base.{
  ◌⊎◌, ℕ, ◌%◌, ◌^◌, ◌≤◌, ◌≡◌, refl, ◌↔◌, true, false, String, some, List, [], ◌∷◌, ok, err, All,
  Any, map, and_then, length, arith, parse_u64, decimal,
}
use ch_chaos.Types.{up, pass, fail}
use ch_chaos.Errors.{validation, edge_not_found}
use ch_chaos.Crd.Impact.{calculate_impact, calculate_impact_bounds}
use ch_chaos.JobBuilder.{make_job_name}
use ch_chaos.JobBuilder.Names.{IsApart, make_job_name_lem}
use ch_chaos.Types.{EdgeInfo}
use ch_chaos.Graph.{
  PrometheusMetric, ServiceKey, GraphBuilderConfig, default_graph_builder_config,
  edge_info_from_metric, find_edge, build_service_graph,
}
use ch_chaos.Graph.Edges.{IsBetween, find_edge_lem}
use ch_chaos.Graph.Traffic.{Traffic, build_service_graph-reachable}
use ch_chaos.ImpactMap.{
  Adjacency, search_loop, scan, MetricsSnapshot, contains, reachable_from, discover_services,
  score_service, compute_affected_services,
}
use ch_chaos.ImpactMap.Reach.{Walk}
use ch_chaos.ImpactMap.Reach.Correct.{reachable_from_correct}
use ch_chaos.ImpactMap.Scores.{IsDescending, compute_affected_services_lem}
use ch_chaos.Duration.{parse_duration_str}
use ch_chaos.Duration.Units.{parse_duration_str-decimal}
use ch_chaos.Json.{get}
use ch_chaos.Istio.{
  VirtualServiceSpec, build_virtual_service_json, managed_labels, label_object, is_chaos_managed,
  build_edge_delay_fault,
}
use ch_chaos.Istio.Routes.{build_virtual_service-recognised}
use ch_chaos.Experiment.{VirtualServiceInfo}
use ch_chaos.Experiment.Handlers.{is_ours}
use text.Mathlib.TextEquality.{eq_iff}
use ch_chaos.Tests.Model.{float}

abbrev pub key : String → ServiceKey
key name = record { workload = name; namespace = "shop" }

-- cart calls pay, pay calls bank and cart, and mail calls cart
abbrev graph : Adjacency
graph =
    (key "cart", key "pay" ∷ [])
    ∷ (key "pay", key "bank" ∷ key "cart" ∷ [])
    ∷ (key "mail", key "cart" ∷ [])
    ∷ []

reached : reachable_from graph (key "cart") ≡ some (key "bank" ∷ key "pay" ∷ key "cart" ∷ [])
unfolding reachable_from search_loop scan
reached = refl

reachable_from_correct_example :
    (r : List ServiceKey) × (reachable_from graph (key "cart") ≡ some r)
    × ((k : ServiceKey) → (contains r k ≡ true) ↔ Walk graph (key "cart") k)
reachable_from_correct_example = reachable_from_correct graph (key "cart")

abbrev traffic : String → String → PrometheusMetric ℕ
traffic source destination = record {
  metric =
      ("source_workload", source)
      ∷ ("source_workload_namespace", "shop")
      ∷ ("destination_workload", destination)
      ∷ ("destination_workload_namespace", "shop")
      ∷ ("destination_service_name", destination)
      ∷ [];
  value = (0, "2");
}

abbrev metrics : List (PrometheusMetric ℕ)
metrics = traffic "cart" "pay" ∷ traffic "pay" "bank" ∷ traffic "" "cart" ∷ []

build_service_graph-reachable_example :
    (r : List ServiceKey) × (reachable_from
        (build_service_graph float metrics).adjacency
        (key "cart")
      ≡ some r)
    × ((k : ServiceKey) → (contains r k ≡ true) ↔ Traffic float metrics (key "cart") k)
build_service_graph-reachable_example = build_service_graph-reachable float metrics (key "cart")

abbrev edges : GraphBuilderConfig ℕ
edges = default_graph_builder_config float

edge_found :
    find_edge float edges metrics "pay" "bank" "shop"
    ≡ ok (edge_info_from_metric float (traffic "pay" "bank"))
unfolding find_edge parse_u64
edge_found = refl

find_edge_lem_example :
    ((info : EdgeInfo ℕ)
      → find_edge float edges metrics "pay" "bank" "shop" ≡ ok info
      → (info.source_workload ≡ "pay")
        × (info.destination_service ≡ "bank")
        × (info.source_namespace ≡ "shop")
        × (float.ge info.rps 50 ≡ true)
        × Any (λ m. edge_info_from_metric float m ≡ info) metrics)
    × ((find_edge float edges metrics "pay" "bank" "shop"
          ≡ err (validation (edge_not_found "pay" "bank")))
        ↔ All (λ m. ¬ IsBetween float edges metrics "pay" "bank" "shop" m) metrics)
find_edge_lem_example = find_edge_lem float edges metrics "pay" "bank" "shop"

-- latency of pay doubles, bank keeps its latency
abbrev pub snapshot : MetricsSnapshot ℕ
snapshot = record {
  latency = record {
    baseline = (key "pay", 2000) ∷ (key "bank", 1000) ∷ [];
    during = (key "pay", 4000) ∷ (key "bank", 1000) ∷ [];
  };
  error_rate = record { baseline = []; during = [] };
  throughput = record { baseline = []; during = [] };
}

compute_affected_services_lem_example :
    let (scanned, affected) = compute_affected_services float snapshot 5 in
    Perm affected (
      filter
        (λ a. dec_le 5 a.impact_score)
        (map (score_service float snapshot) (discover_services float snapshot)))
    × IsDescending float affected
    × All (λ a. a.impact_score ≤ 100) affected
    × (scanned ≡ length (discover_services float snapshot) % 2 ^ 32)
compute_affected_services_lem_example = compute_affected_services_lem float snapshot 5

half : calculate_impact float 2000 3000 up 40 ≡ (50, fail, 50000)
unfolding calculate_impact
half = refl

calculate_impact_bounds_example :
    let (score, verdict, _) = calculate_impact float 2000 3000 up 40 in
    (score ≤ 100) × ((verdict ≡ pass) ↔ (score ≤ 40))
calculate_impact_bounds_example = calculate_impact_bounds float 2000 3000 up 40

abbrev node_a : String
node_a = "ip-10-0-128-17.eu-central-1.compute.internal-a"

abbrev node_b : String
node_b = "ip-10-0-128-17.eu-central-1.compute.internal-b"

abbrev job_name : String
job_name = "chaos-runner-12345678-ip-10-0-128-17.eu-central-1.compute.inter"

named : make_job_name "12345678-abcd" node_a ≡ some job_name
unfolding make_job_name
named = refl

make_job_name_lem_example :
    (len job_name ≤ 63)
    × (IsApart "12345678-abcd" node_a node_b
        ⊎ (make_job_name "12345678-abcd" node_b ≡ some job_name))
make_job_name_lem_example = make_job_name_lem "12345678-abcd" node_a node_b named

parse_duration_str-decimal_example :
    (parse_duration_str "90s" ≡ some 90)
    × (parse_duration_str "90m" ≡ some 5400)
    × (parse_duration_str "90h" ≡ some 324000)
unfolding decimal
parse_duration_str-decimal_example = parse_duration_str-decimal 90 (omega arith)

abbrev delay : VirtualServiceSpec
delay = record {
  name = "chaos-edge-12345678";
  namespace = "shop";
  experiment_name = "latency";
  experiment_uid = "12345678-abcd";
  destination_fqdn = "pay.shop.svc.cluster.local";
  source_labels = ("app", "cart") ∷ [];
  fault = build_edge_delay_fault 250;
}

build_virtual_service-recognised_example :
    let labels = managed_labels "latency" in
    let vs : VirtualServiceInfo = record { name = "chaos-edge-12345678"; labels = labels } in
    (and_then (get (build_virtual_service_json delay) "metadata") (λ m. get m "labels")
      ≡ some (label_object labels))
    × (is_chaos_managed labels ≡ true)
    × (is_ours "latency" vs ≡ true)
    × (is_ours "other" vs ≡ false)
build_virtual_service-recognised_example =
    build_virtual_service-recognised delay "chaos-edge-12345678" "other"
      (λ h. ground (arith, (eq_iff "other" "latency").1 h))
