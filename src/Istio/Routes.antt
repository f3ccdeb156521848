-- ===== src/Istio/Routes.antt =====
-- What the VirtualService of an experiment says: whose it is, and which requests get the fault.
use text.Mathlib.TextEquality.{eq_iff}
use ch_chaos.Base.{
  String, ◌≡◌, ◌≢◌, refl, true, false, Option, none, some, and_then, arith, [], ◌∷◌, Bool, All, ◌↔◌,
  lookup,
}
use ch_chaos.Objects.{Labels}
use ch_chaos.Json.{Items, Value, arr, cons, str, get, single, object}
use ch_chaos.Istio.{
  VirtualServiceSpec, build_virtual_service_json, managed_labels, label_object, is_chaos_managed,
}
use ch_chaos.Experiment.{VirtualServiceInfo}
use ch_chaos.Experiment.Handlers.{is_ours}

-- The labels that the built VirtualService carries, and that the client then lists, are those by which
-- the conflict check knows a VirtualService of the operator and by which the cleanup finds the
-- VirtualServices of this experiment, and of no experiment with another name.
pub build_virtual_service-recognised :
    (spec : VirtualServiceSpec) (name other : String)
    → other ≢ spec.experiment_name
    → let labels = managed_labels spec.experiment_name in
      let vs : VirtualServiceInfo = record { name = name; labels = labels } in
      (and_then (get (build_virtual_service_json spec) "metadata") (λ m. get m "labels")
        ≡ some (label_object labels))
      × (is_chaos_managed labels ≡ true)
      × (is_ours spec.experiment_name vs ≡ true)
      × (is_ours other vs ≡ false)
unfolding build_virtual_service_json managed_labels is_chaos_managed is_ours
build_virtual_service-recognised spec name other ne = (
  refl,
  refl,
  ground (arith, eq_iff spec.experiment_name spec.experiment_name),
  ground (arith, eq_iff spec.experiment_name other),
)

-- The workload with these labels carries the wanted ones.
abbrev pub Carries : Labels → Labels → Type 0
Carries workload = All (λ wanted. lookup wanted.0 workload ≡ some wanted.1)

-- Istio, as far as the operator relies on it: which of the routes of a VirtualService is used for a
-- request of a workload with these labels. A route without a condition takes every request, one with
-- `sourceLabels` those of the workloads that carry them, and the first route that takes a request is
-- used.
pub record Mesh : Type 0 where
  pub takes : Value → Labels → Bool
  pub used : Items → Labels → Option Value
  pub unconditional :
      (route : Value) (workload : Labels) → get route "match" ≡ none → takes route workload ≡ true
  pub by_labels :
      (route : Value) (wanted workload : Labels)
      → get route "match" ≡ some (single (object (("sourceLabels", label_object wanted) ∷ [])))
      → (takes route workload ≡ true) ↔ Carries workload wanted
  pub used_first :
      (route : Value) (rest : Items) (workload : Labels)
      → takes route workload ≡ true
      → used (cons route rest) workload ≡ some route
  pub used_later :
      (route : Value) (rest : Items) (workload : Labels)
      → takes route workload ≡ false
      → used (cons route rest) workload ≡ used rest workload

abbrev pub routes_of : Value → Option Value
routes_of vs = and_then (get vs "spec") (λ s. get s "http")

-- What Istio does with a request to the host: it goes to the destination of the experiment, and it gets
-- the fault just when its workload carries the labels of the source.
pub record IsRouted (mesh : Mesh) (spec : VirtualServiceSpec) (workload : Labels) : Type 0 where
  pub routes : Items
  pub route : Value
  pub listed : routes_of (build_virtual_service_json spec) ≡ some (arr routes)
  pub chosen : mesh.used routes workload ≡ some route
  pub destined :
      get route "route"
      ≡ some (
          single (object (("destination", object (("host", str spec.destination_fqdn) ∷ [])) ∷ [])))
  pub faulty : Carries workload spec.source_labels → get route "fault" ≡ some spec.fault
  pub healthy : ¬ Carries workload spec.source_labels → get route "fault" ≡ none

abbrev destined_to : String → Value
destined_to host = single (object (("destination", object (("host", str host) ∷ [])) ∷ []))

-- the two routes that the VirtualService is found to have
abbrev fault_route : VirtualServiceSpec → Value
fault_route spec = object (
    ("match", single (object (("sourceLabels", label_object spec.source_labels) ∷ [])))
    ∷ ("fault", spec.fault)
    ∷ ("route", destined_to spec.destination_fqdn)
    ∷ [])

abbrev plain_route : VirtualServiceSpec → Value
plain_route spec = object (("route", destined_to spec.destination_fqdn) ∷ [])
