-- ===== src/Tests/Edges.antt =====
-- An edge experiment that is started, and one that is refused, on concrete inputs.
use ch_chaos.Base.{ℕ, inl, inr, done, ◌≡◌, refl, none, some, [], ◌∷◌, ok, decimal}
use ch_chaos.Types.{Phase, EdgeTarget}
use ch_chaos.Crd.{ChaosExperiment, default_experiment_status}
use ch_chaos.Istio.{
  build_fault_for_scenario, build_edge_delay_fault, virtual_service_name, is_chaos_managed, fqdn,
  build_virtual_service_json,
}
use ch_chaos.Experiment.{Call, KubeClient, EdgeResolver, exp_name, exp_namespace, target_namespace}
use ch_chaos.Experiment.Pending.{has_conflict, handle_pending_edge}
use ch_chaos.Experiment.Edge.{conflict, handle_pending_edge-refuses, handle_pending_edge-launches}
use ch_chaos.Tests.Model.{system, cluster, latency, managed, edge_info}
use text.Mathlib.TextEquality.{eq_iff}
use ch_chaos.Base.{arith}
use ch_chaos.Graph.{PrometheusApiResponse, PrometheusMetric, default_graph_builder_config}
use ch_chaos.Graph.Http.{new_builder, new_client}
use ch_chaos.Client.Real.{Http, real_edge_resolver}
use ch_chaos.Controller.Evidence.{unseen_edge-refuses}
use ch_chaos.Tests.Model.{float}
use ch_chaos.Tests.Clients.{server, serde}

abbrev pending : ChaosExperiment
pending = record latency { status = none }

abbrev target : EdgeTarget
target = record { source_service = "cart"; destination_service = "pay" }

abbrev seeing : EdgeResolver ℕ
seeing = record { resolve_edge = λ _ _ _ _. ok edge_info }

-- The namespace has a VirtualService of someone else.
handle_pending_edge-refuses_example :
    handle_pending_edge system cluster pending (some seeing) "12345678-abcd" [] ≡ (
      done tt,
      Call.patch_experiment_status "chaos" "latency" (record default_experiment_status {
        phase = Phase.failed;
        message = some "conflicting VirtualService exists for host: pay.shop.svc.cluster.local";
      })
          ∷ Call.list_virtual_services_for_host "shop" "pay.shop.svc.cluster.local"
          ∷ Call.get_service_selector "shop" "cart"
          ∷ [],
    )
unfolding exp_name exp_namespace target_namespace has_conflict is_chaos_managed fqdn
handle_pending_edge-refuses_example =
    handle_pending_edge-refuses system cluster pending seeing "12345678-abcd" target [] refl
      (conflict refl refl (inr (inl refl)))

-- a cluster without it
abbrev calm : KubeClient
calm = record cluster { list_virtual_services_for_host = λ _ _ _. ok (managed ∷ []) }

handle_pending_edge-launches_example :
    let service = build_virtual_service_json (record {
      name = "chaos-edge-12345678";
      namespace = "shop";
      experiment_name = "latency";
      experiment_uid = "12345678-abcd";
      destination_fqdn = "pay.shop.svc.cluster.local";
      source_labels = ("app", "cart") ∷ [];
      fault = build_edge_delay_fault 250;
    }) in
    handle_pending_edge system calm pending (some seeing) "12345678-abcd" [] ≡ (
      done tt,
      Call.patch_experiment_status "chaos" "latency" (record default_experiment_status {
        phase = Phase.running;
        message = some "Edge chaos cart → pay for 30s";
        started_at = some "100";
        experiment_id = some "12345678-abcd";
      })
          ∷ Call.read_clock
          ∷ Call.create_virtual_service "shop" service
          ∷ Call.resolve_edge "cart" "pay" "shop"
          ∷ Call.list_virtual_services_for_host "shop" "pay.shop.svc.cluster.local"
          ∷ Call.get_service_selector "shop" "cart"
          ∷ [],
    )
unfolding exp_name exp_namespace target_namespace has_conflict is_chaos_managed fqdn
    build_fault_for_scenario virtual_service_name decimal
handle_pending_edge-launches_example =
    handle_pending_edge-launches system calm pending seeing "12345678-abcd" target [] refl
      (build_edge_delay_fault 250) "chaos-edge-12345678" refl refl (refl, tt) refl refl refl tt

-- the traffic of another edge
abbrev other_traffic : PrometheusMetric ℕ
other_traffic = record {
  metric =
      ("source_workload", "web")
      ∷ ("source_workload_namespace", "shop")
      ∷ ("destination_service_name", "pay")
      ∷ [];
  value = (0, "3");
}

abbrev answer : PrometheusApiResponse ℕ
answer = record { status = "success"; result = other_traffic ∷ [] }

abbrev http : Http server serde float Call
http = λ _ _ _. ok answer

unseen_edge-refuses_example :
    handle_pending_edge system calm pending
      (some (
        real_edge_resolver server serde float http (
          new_builder (new_client "http://prometheus:9090/") (default_graph_builder_config float))))
      "12345678-abcd"
      []
    ≡ (
      done tt,
      Call.patch_experiment_status "chaos" "latency" (record default_experiment_status {
        phase = Phase.failed;
        message = some "validation error: target edge not found: cart → pay";
      })
          ∷ Call.resolve_edge "cart" "pay" "shop"
          ∷ Call.list_virtual_services_for_host "shop" "pay.shop.svc.cluster.local"
          ∷ Call.get_service_selector "shop" "cart"
          ∷ [],
    )
unfolding exp_name exp_namespace target_namespace has_conflict is_chaos_managed fqdn
unseen_edge-refuses_example =
    unseen_edge-refuses server serde float system http calm "http://prometheus:9090/" pending
      "12345678-abcd" target [] refl answer refl refl (refl, tt) refl refl
      (λ b. ground (arith, (eq_iff "web" "cart").1 b.0), tt)
