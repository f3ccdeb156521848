-- ===== src/Client/Patches.antt =====
-- The patches of `RealKubeClient` (src/operator/kube_client.rs) on the object that the API server has
-- stored, against the writes of `Lifecycle` on the object that the operator sees.
use ch_chaos.Base.{String, ◌≡◌, refl, Option, none, some, List, [], ◌∷◌, unwrap_or}
use mathlib.Core.Option
use ch_chaos.Types.{finalizer_name}
use ch_chaos.Json.{Value, obj, arr, Members, member, end, find_member}
use ch_chaos.Json.MergePatch.{IsMergePatch}
use ch_chaos.Crd.{ChaosExperiment, ChaosExperimentStatus, default_experiment_status}
use ch_chaos.Crd.Encoding.{item_texts, status_members, read_status}
use ch_chaos.Crd.Encoding.Reading.{HasFields, HasFields-read_status, status_members-HasFields}
use ch_chaos.Crd.Encoding.Patching.{merge_status, merge-HasFields, fresh-HasFields}
use ch_chaos.Experiment.{Call, current_status}
use ch_chaos.Lifecycle.{effect, with_finalizers}
use ch_chaos.Client.{Request, Api, Serde, Op}
use ch_chaos.Client.Methods.{patch_experiment_status, add_finalizer, remove_finalizer}

-- the members of a stored object hold the status, or none where there is none
abbrev pub HasStatus : Members → Option ChaosExperimentStatus → Type 0
HasStatus t none = find_member t "status" ≡ none
HasStatus t (some s) = (ms : Members) × (find_member t "status" ≡ some (obj ms)) × HasFields ms s

-- The stored object is that of the experiment, in its finalizers and its status.
pub record Represents (t : Members) (e : ChaosExperiment) : Type 0 where
  pub meta : Members
  pub metadata : find_member t "metadata" ≡ some (obj meta)
  pub finalizers :
      find_member meta "finalizers" ≡ Option.map (λ l. arr (item_texts l)) e.metadata.finalizers
  pub status : HasStatus t e.status

abbrev status_value : Option Value → Option ChaosExperimentStatus
status_value none = some default_experiment_status
status_value (some (obj ms)) = read_status ms
status_value (some _) = none

-- the status that is read back from a stored object
abbrev pub stored_status : Members → Option ChaosExperimentStatus
stored_status t = status_value (find_member t "status")

Represents-stored_status :
    {t : Members} {e : ChaosExperiment} → Represents t e → stored_status t ≡ some (current_status e)
unfolding current_status
Represents-stored_status {t} {e} r = by_status e.status r.status
  where
    by_status :
        (o : Option ChaosExperimentStatus)
        → HasStatus t o
        → stored_status t ≡ some (unwrap_or o default_experiment_status)
    by_status none h = rw h refl
    by_status (some s) (ms, at, fields) = rw at (HasFields-read_status ms s fields)

module _ {F : Type 0} (api : Api) (serde : Serde F) (merge : Members → Members → Members)
    (law : IsMergePatch merge) (ns name : String) (log : List Request) (t : Members)
    (e : ChaosExperiment) (r : Represents t e) where
  -- A method sends one request, and the merge of its patch makes of the stored object that of the
  -- experiment after the call; the spec is kept, and the status that is read back is that after it.
  abbrev pub Implements : (Value → Request) → Op (Unit {0}) → Call → Type 0
  Implements kind m c =
      (p : Members) × ((m log).1 ≡ kind (obj p) ∷ log)
      × Represents (merge t p) (effect c e)
      × (find_member (merge t p) "spec" ≡ find_member t "spec")
      × (stored_status (merge t p) ≡ some (current_status (effect c e)))

  merged_status :
      (new : ChaosExperimentStatus) (p : Members)
      → find_member p "status" ≡ some (obj (status_members new))
      → HasStatus (merge t p) (some (merge_status (current_status e) new))
  unfolding current_status
  merged_status new p h = by_status e.status r.status
    where
      by_status :
          (o : Option ChaosExperimentStatus)
          → HasStatus t o
          → HasStatus (merge t p) (some (merge_status (unwrap_or o default_experiment_status) new))
      by_status none at = (
        merge end (status_members new),
        law.fresh t p "status" _ h at,
        fresh-HasFields merge law (status_members-HasFields new),
      )
      by_status (some s) (ms, at, fields) = (
        merge ms (status_members new),
        law.nested t p "status" ms _ h at,
        merge-HasFields merge law ms _ fields (status_members-HasFields new),
      )

  status_written :
      (new : ChaosExperimentStatus) (p : Members)
      → find_member p "status" ≡ some (obj (status_members new))
      → find_member p "metadata" ≡ none
      → Represents (merge t p) (effect (Call.patch_experiment_status ns name new) e)
  unfolding effect
  status_written new p h k = record {
    meta = r.meta;
    metadata = rw (law.kept t p "metadata" k) r.metadata;
    finalizers = r.finalizers;
    status = merged_status new p h;
  }

  finalizers_written :
      (names : List String) (p : Members) (c : Call)
      → find_member p "metadata" ≡ some (obj (member "finalizers" (arr (item_texts names)) end))
      → find_member p "status" ≡ none
      → effect c e ≡ with_finalizers e names
      → Represents (merge t p) (effect c e)
  finalizers_written names p c h k is = rw is (record {
    meta = merge r.meta (member "finalizers" (arr (item_texts names)) end);
    metadata = law.nested t p "metadata" r.meta _ h r.metadata;
    finalizers = law.replaced r.meta _ "finalizers" (arr (item_texts names)) refl refl;
    status = kept_status e.status r.status;
  })
    where
      kept_status : (o : Option ChaosExperimentStatus) → HasStatus t o → HasStatus (merge t p) o
      kept_status none at = rw (law.kept t p "status" k) at
      kept_status (some s) (ms, at, fields) = (ms, rw (law.kept t p "status" k) at, fields)

  -- The three methods that change an experiment each send one request, whose patch makes of the stored
  -- object that of the experiment after the call, where the server merges patches as RFC 7386 says: a
  -- status is merged field by field, and the finalizers are replaced, those of others included. The
  -- spec is kept, and the status that is read back is that after the call.
  pub writes-Implements :
      (new : ChaosExperimentStatus)
      → Implements
          (Request.patch_experiment_status ns name)
          (patch_experiment_status api serde ns name new)
          (Call.patch_experiment_status ns name new)
        × Implements
            (Request.patch_experiment ns name)
            (add_finalizer api serde ns name)
            (Call.add_finalizer ns name)
        × Implements
            (Request.patch_experiment ns name)
            (remove_finalizer api serde ns name)
            (Call.remove_finalizer ns name)
  unfolding patch_experiment_status add_finalizer remove_finalizer effect
  writes-Implements new =
      let p = member "status" (obj (status_members new)) end in
      let q =
        member "metadata" (obj (member "finalizers" (arr (item_texts (finalizer_name ∷ []))) end))
          end in
      let z = member "metadata" (obj (member "finalizers" (arr (item_texts [])) end)) end in
      let rp = status_written new p refl refl in
      let rq =
        finalizers_written (finalizer_name ∷ []) q (Call.add_finalizer ns name) refl refl refl in
      let rz = finalizers_written [] z (Call.remove_finalizer ns name) refl refl refl in
      (
        (p, refl, rp, law.kept t p "spec" refl, Represents-stored_status rp),
        (q, refl, rq, law.kept t q "spec" refl, Represents-stored_status rq),
        (z, refl, rz, law.kept t z "spec" refl, Represents-stored_status rz),
      )
