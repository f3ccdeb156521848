-- ===== src/Client/Reports.antt =====
-- What the patch of an impact map's status (src/operator/kube_client.rs) leaves in the stored object.
use ch_chaos.Base.{String, Bool, ◌≡◌, refl, true, arith, Option, none, some, List, [], ◌∷◌}
use mathlib.Core.Option
use ch_chaos.Json.{Value, Members, str, arr, obj, end, member, find_member}
use ch_chaos.Json.MergePatch.{IsMergePatch, is_plain}
use ch_chaos.Crd.{ChaosImpactMapStatus, ImpactMapSummary, AffectedService}
use ch_chaos.Crd.Encoding.{optional}
use ch_chaos.Crd.Encoding.Reports.{
  analysis_phase_name, optional_value, service_items, services_member, summary_members,
  impact_map_members,
}
use ch_chaos.Client.{Request, Api, Serde}
use ch_chaos.Client.Methods.{patch_impact_map_status}

-- the new value where there is one, else the old
abbrev pub or_old : Option Value → Option Value → Option Value
or_old none old = old
or_old (some v) old = some v

module _ {F : Type 0} (number : F → Value) where
  -- the services as a patch gives them
  abbrev pub services_value : List (AffectedService F) → Option Value
  services_value [] = none
  services_value (s ∷ l) = some (arr (service_items number (s ∷ l)))

  module _ (s : Option ImpactMapSummary) (l : List (AffectedService F)) (m : Option String) where
    abbrev rest : Members
    rest =
        optional_value "summary" (λ x. obj (summary_members number x)) s
          (services_member number l (optional "message" m end))

    find-message : find_member rest "message" ≡ Option.map str m
    find-message = ground arith

    find-services : find_member rest "affectedServices" ≡ services_value l
    find-services = ground arith

abbrev plain_if : Option Value → Bool
plain_if none = true
plain_if (some v) = is_plain v

merged :
    (merge : Members → Members → Members) (law : IsMergePatch merge) (t p : Members) (k : String)
    (new : Option Value)
    → find_member p k ≡ new
    → plain_if new ≡ true
    → find_member (merge t p) k ≡ or_old new (find_member t k)
merged merge law t p k none h plain = law.kept t p k h
merged merge law t p k (some v) h plain = law.replaced t p k v h plain

plain_text : (m : Option String) → plain_if (Option.map str m) ≡ true
plain_text none = refl
plain_text (some s) = refl

module _ {F : Type 0} (api : Api) (serde : Serde F) (merge : Members → Members → Members)
    (law : IsMergePatch merge) (ns name : String) (log : List Request) (t ms : Members)
    (stored : find_member t "status" ≡ some (obj ms)) where
  plain_services : (l : List (AffectedService F)) → plain_if (services_value serde.number l) ≡ true
  plain_services [] = refl
  plain_services (s ∷ l) = refl

  -- Of an impact map that has a status, where the server merges patches as RFC 7386 says: the write of a
  -- new status sends one request, whose patch leaves in the stored status the new phase, and the new
  -- message and services where the new status has any, but the old ones where it has none. So a
  -- completed map, whose status has no message, keeps that of the wait or failure before it.
  pub patch_impact_map_status-merges :
      (new : ChaosImpactMapStatus F)
      → (p : Members) × (ms' : Members) × ((patch_impact_map_status api serde ns name new log).1
          ≡ Request.patch_impact_map_status ns name (obj p) ∷ log)
        × (find_member (merge t p) "status" ≡ some (obj ms'))
        × (find_member ms' "phase" ≡ some (str (analysis_phase_name new.phase)))
        × (find_member ms' "message"
            ≡ or_old (Option.map str new.message) (find_member ms "message"))
        × (find_member ms' "affectedServices"
            ≡ or_old
                (services_value serde.number new.affected_services)
                (find_member ms "affectedServices"))
  unfolding patch_impact_map_status impact_map_members
  patch_impact_map_status-merges new =
      let q = impact_map_members serde.number new in
      let p = member "status" (obj q) end in
      (
        p,
        merge ms q,
        refl,
        law.nested t p "status" ms q refl stored,
        law.replaced ms q "phase" _ refl refl,
        merged merge law ms q "message" _
            (find-message serde.number new.summary new.affected_services new.message)
            (plain_text new.message),
        merged merge law ms q "affectedServices" _
            (find-services serde.number new.summary new.affected_services new.message)
            (plain_services new.affected_services),
      )
