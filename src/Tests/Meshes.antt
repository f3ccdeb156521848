-- ===== src/Tests/Meshes.antt =====
-- A routing of requests that keeps Istio's laws, and the routes of a VirtualService on concrete inputs.
use text.Mathlib.TextEquality.{eq_iff}
use ch_chaos.Base.{
  String, Bool, true, false, ◌&&◌, ◌≡◌, refl, ◌↔◌, Option, none, some, [], ◌∷◌, lookup, str_eq,
  if◌then◌else◌, arith,
}
use ch_chaos.Objects.{Labels}
use ch_chaos.Json.{Value, Items, Members, str, arr, obj, nil, cons, end, member, get, object}
use ch_chaos.Istio.{label_object, VirtualServiceSpec, build_edge_abort_fault}
use ch_chaos.Istio.Routes.{Mesh, Carries}

abbrev is_text : Option String → Value → Bool
is_text (some t) (str s) = str_eq t s
is_text _ _ = false

abbrev carries_all : Labels → Members → Bool
carries_all workload end = true
carries_all workload (member k v ms) = is_text (lookup k workload) v && carries_all workload ms

abbrev meets : Labels → Option Value → Bool
meets workload (some (obj ms)) = carries_all workload ms
meets workload _ = false

-- a list of one condition, of which only the labels are looked at
abbrev is_met : Labels → Option Value → Bool
is_met workload none = true
is_met workload (some (arr (cons condition nil))) = meets workload (get condition "sourceLabels")
is_met workload _ = false

abbrev takes : Value → Labels → Bool
takes route workload = is_met workload (get route "match")

abbrev used : Items → Labels → Option Value
used nil workload = none
used (cons route rest) workload = if takes route workload then some route else used rest workload

found : (o : Option String) (v : String) → (is_text o (str v) ≡ true) ↔ (o ≡ some v)
found none v = (λ h. cc h, λ h. cc h)
found (some t) v = (λ h. ground (arith, eq_iff t v, h), λ h. ground (arith, eq_iff t v, h))

abbrev source_of : Labels → Option Value
source_of wanted = get (object (("sourceLabels", label_object wanted) ∷ [])) "sourceLabels"

carried :
    (workload wanted : Labels)
    → (meets workload (source_of wanted) ≡ true) ↔ Carries workload wanted
carried workload [] = (λ h. tt, λ h. refl)
carried workload ((k, v) ∷ rest) =
    let here = found (lookup k workload) v in
    let later = carried workload rest in
    (λ h. ground (arith, here, later, h), λ h. ground (arith, here, later, h))

abbrev mesh : Mesh
mesh = record {
  takes = takes;
  used = used;
  unconditional = λ route workload h. rw h refl;
  by_labels = λ route wanted workload h. rw h (carried workload wanted);
  used_first = λ route rest workload h. rw h refl;
  used_later = λ route rest workload h. rw h refl;
}

abbrev abort : VirtualServiceSpec
abort = record {
  name = "chaos-edge-12345678";
  namespace = "shop";
  experiment_name = "outage";
  experiment_uid = "12345678-abcd";
  destination_fqdn = "pay.shop.svc.cluster.local";
  source_labels = ("app", "cart") ∷ ("tier", "web") ∷ [];
  fault = build_edge_abort_fault 50 503;
}
