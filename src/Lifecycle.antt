-- ===== src/Lifecycle.antt =====
-- An experiment over its life in the cluster: the reconciles of src/operator/reconciler.rs, each of
-- which sees the object as it is then, and what its users do. The API server may take or lose any of
-- the calls of a reconcile, whatever it answers. A status write is a merge patch
-- (src/operator/kube_client.rs): what the serialised status leaves out stays as it was.
pub mod Evolution
pub mod Writes
pub mod Safety
pub mod Progress
use ch_chaos.Base.{
  String, ◌≡◌, Bool, true, false, Option, none, some, List, [], ◌∷◌, is_empty, if◌then◌else◌,
}
use ch_chaos.Types.{finalizer_name}
use ch_chaos.Objects.{ObjectMeta}
use ch_chaos.Crd.{ChaosExperiment, ChaosExperimentSpec, ChaosExperimentStatus}
use ch_chaos.Crd.Encoding.Patching.{merge_status}
use ch_chaos.Experiment.{Call, KubeClient, EdgeResolver, System, ReconcilerConfig, current_status}
use ch_chaos.Experiment.Reconcile.{reconcile}

abbrev pub with_finalizers : ChaosExperiment → List String → ChaosExperiment
with_finalizers e names = record e { metadata = record e.metadata { finalizers = some names } }

-- what a call that the server takes does to the stored object
unfoldable pub effect : Call → ChaosExperiment → ChaosExperiment
effect (Call.patch_experiment_status ns name status) e = record e {
  status = some (merge_status (current_status e) status);
}
effect (Call.add_finalizer ns name) e = with_finalizers e (finalizer_name ∷ [])
effect (Call.remove_finalizer ns name) e = with_finalizers e []
effect _ e = e

-- the stored object, and the calls that the server has taken, the most recent first
pub record State : Type 0 where
  pub object : ChaosExperiment
  pub history : List Call

abbrev pub take_call : Call → State → State
take_call c s = record { object = effect c s.object; history = c ∷ s.history }

-- The server takes or loses each call of a log.
pub data Applied (s : State) : List Call → State → Type 0 where
  begun : Applied s [] s
  taken :
      {c : Call} {log : List Call} {t : State}
      → Applied s log t
      → Applied s (c ∷ log) (take_call c t)
  lost : {c : Call} {log : List Call} {t : State} → Applied s log t → Applied s (c ∷ log) t

-- the server takes all calls of a log
abbrev pub take_all : State → List Call → State
take_all s [] = s
take_all s (c ∷ log) = take_call c (take_all s log)

pub take_all-Applied : (s : State) (log : List Call) → Applied s log (take_all s log)
take_all-Applied s [] = begun
take_all-Applied s (c ∷ log) = taken (take_all-Applied s log)

module _ (DateTime F : Type 0) where
  pub data Step (s t : State) : Type 0 where
    reconciled :
        (sys : System DateTime) (kube : KubeClient) (resolver : Option (EdgeResolver F))
        (config : ReconcilerConfig)
        → Applied s (reconcile sys kube resolver config s.object []).1 t
        → Step s t
    deleted :
        (time : String)
        → t ≡ record s {
          object = record s.object {
            metadata = record s.object.metadata { deletion_timestamp = some time };
          };
        }
        → Step s t
    edited :
        (spec : ChaosExperimentSpec)
        → t ≡ record s { object = record s.object { spec = spec } }
        → Step s t

  pub data Reach (s : State) : State → Type 0 where
    here : Reach s s
    next : {t u : State} → Reach s t → Step t u → Reach s u
