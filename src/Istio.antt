-- ===== src/Istio.antt =====
-- src/operator/istio_injector.rs: the VirtualService that injects faults on one edge, as JSON.
pub mod Routes
use Prim.Native.String.{len}
use text.Mathlib.Text.{get?}
use ch_chaos.Base.{
  ℕ, ◌%◌, ◌^◌, String, Bool, true, false, Option, none, some, List, [], ◌∷◌, min, format, decimal,
  lookup, str_eq, unwrap_or, and_then,
}
use ch_chaos.Types.{
  ScenarioType, edge_delay, edge_abort, experiment_label, managed_by_label, managed_by_value,
}
use ch_chaos.Objects.{Labels}
use ch_chaos.Json.{Value, bool, num, str, get, as_u64, object, single, arr, nil, cons}

unfoldable pub fqdn : String → String → String
fqdn service namespace = format (service ∷ "." ∷ namespace ∷ ".svc.cluster.local" ∷ [])

abbrev edge_name : Option String → Option String
edge_name none = none
edge_name (some prefix) = some (format ("chaos-edge-" ∷ prefix ∷ []))

-- `none` where the slice panics, inside a character
unfoldable pub virtual_service_name : String → Option String
virtual_service_name experiment_id = edge_name (get? experiment_id 0 (min 8 (len experiment_id)))

pub record VirtualServiceSpec : Type 0 where
  pub name : String
  pub namespace : String
  pub experiment_name : String
  pub experiment_uid : String
  pub destination_fqdn : String
  pub source_labels : Labels
  pub fault : Value

unfoldable pub build_edge_delay_fault : ℕ → Value
build_edge_delay_fault latency_ms = object (
    (
      "delay",
      object (
          ("percentage", object (("value", num 100) ∷ []))
          ∷ ("fixedDelay", str (format (decimal latency_ms ∷ "ms" ∷ [])))
          ∷ []),
    )
    ∷ [])

unfoldable pub build_edge_abort_fault : ℕ → ℕ → Value
build_edge_abort_fault percent http_status = object (
    (
      "abort",
      object (
          ("percentage", object (("value", num percent) ∷ []))
          ∷ ("httpStatus", num http_status)
          ∷ []),
    )
    ∷ [])

infixl 5 ◌>>=◌
abbrev ◌>>=◌ : {A B : Type 0} → Option A → (A → Option B) → Option B
none >>= f = none
some a >>= f = f a

-- `as u32` and `as u16` keep the low bits.
unfoldable pub build_fault_for_scenario : ScenarioType → Value → Option Value
unfolding build_edge_delay_fault build_edge_abort_fault
build_fault_for_scenario edge_delay parameters = do
  value ← get parameters "latencyMs"
  ms ← as_u64 value
  some (build_edge_delay_fault ms)
build_fault_for_scenario edge_abort parameters = do
  value ← get parameters "abortPercent"
  percent ← as_u64 value
  let status = unwrap_or (and_then (get parameters "abortHttpStatus") as_u64) 503
  some (build_edge_abort_fault (percent % 2 ^ 32) (status % 2 ^ 16))
build_fault_for_scenario _ parameters = none

-- a map of labels as a JSON object
abbrev pub label_object : Labels → Value
label_object labels = object (texts labels)
  where
    texts : Labels → List (String × Value)
    texts [] = []
    texts ((k, v) ∷ r) = (k, str v) ∷ texts r

abbrev route_to : String → Value
route_to host = single (object (("destination", object (("host", str host) ∷ [])) ∷ []))

-- the labels that the operator puts on every VirtualService of its own
unfoldable pub managed_labels : String → Labels
managed_labels experiment_name =
    (experiment_label, experiment_name) ∷ (managed_by_label, managed_by_value) ∷ []

unfoldable pub build_virtual_service_json : VirtualServiceSpec → Value
unfolding managed_labels
build_virtual_service_json spec = object (
    ("apiVersion", str "networking.istio.io/v1beta1")
    ∷ ("kind", str "VirtualService")
    ∷ (
      "metadata",
      object (
          ("name", str spec.name)
          ∷ ("namespace", str spec.namespace)
          ∷ ("labels", label_object (managed_labels spec.experiment_name))
          ∷ (
            "ownerReferences",
            single (
                object (
                  ("apiVersion", str "chaos.io/v1")
                  ∷ ("kind", str "ChaosExperiment")
                  ∷ ("name", str spec.experiment_name)
                  ∷ ("uid", str spec.experiment_uid)
                  ∷ ("controller", bool true)
                  ∷ ("blockOwnerDeletion", bool true)
                  ∷ [])),
          )
          ∷ []),
    )
    ∷ (
      "spec",
      object (
          ("hosts", single (str spec.destination_fqdn))
          ∷ (
            "http",
            arr (
                cons
                  (object (
                    (
                      "match",
                      single (object (("sourceLabels", label_object spec.source_labels) ∷ [])),
                    )
                    ∷ ("fault", spec.fault)
                    ∷ ("route", route_to spec.destination_fqdn)
                    ∷ []))
                  (cons (object (("route", route_to spec.destination_fqdn) ∷ [])) nil)),
          )
          ∷ []),
    )
    ∷ [])

abbrev is_some_text : Option String → String → Bool
is_some_text none s = false
is_some_text (some t) s = str_eq t s

unfoldable pub is_chaos_managed : Labels → Bool
is_chaos_managed vs_labels = is_some_text (lookup managed_by_label vs_labels) managed_by_value
