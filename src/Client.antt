-- ===== src/Client.antt =====
-- src/operator/kube_client.rs: `RealKubeClient`, the client of the API server that the reconcilers are
-- given. Here: the API of the server as a parameter. The methods are in `Methods`.
pub mod Methods
pub mod Nodes
pub mod Patches
pub mod Real
pub mod Reports
use ch_chaos.Base.{
  ℕ, String, Bool, Option, none, some, List, [], ◌∷◌, map, Result, ok, err, unwrap_or, and_then,
  if◌then◌else◌, str_eq, sort_by, text_le,
}
use ch_chaos.Types.{finalizer_name}
use ch_chaos.Errors.{KubeError, OperatorError, serialization}
use ch_chaos.Json.{Value, str, object, single, arr, nil}
use ch_chaos.Objects.{ObjectMeta, Labels, Job, PodSpec}
use ch_chaos.Crd.{
  ChaosExperiment, ChaosExperimentSpec, ChaosExperimentStatus, ChaosAnalysisStatus,
  ChaosImpactMapStatus, default_experiment_status,
}
use ch_chaos.Crd.Encoding.{status_members}
use ch_chaos.Experiment.{VirtualServiceInfo}

-- The fields of a Pod, a Service and a `DynamicObject` that the client reads or passes on;
-- `generate_name` is the field of the metadata.
pub record Pod : Type 0 where
  pub metadata : ObjectMeta
  pub spec : Option PodSpec

pub record ServiceSpec : Type 0 where
  pub selector : Option Labels

pub record Service : Type 0 where
  pub metadata : ObjectMeta
  pub spec : Option ServiceSpec

pub record DynamicObject : Type 0 where
  pub metadata : ObjectMeta
  pub generate_name : Option String
  pub content : Value

-- A request to the API server: the verb with the kind of object, then the namespace and what the
-- request carries.
pub data Request : Type 0 where
  create_job : String → Job → Request
  list_jobs delete_job : String → String → Request
  list_pods : String → Request
  get_service : String → String → Request
  create_virtual_service : String → DynamicObject → Request
  list_virtual_services : String → Request
  delete_virtual_service : String → String → Request
  get_experiment : String → String → Request
  patch_experiment patch_experiment_status : String → String → Value → Request
  patch_analysis_status patch_impact_map_status : String → String → Value → Request

abbrev pub Answer : Type 0 → Type 0
Answer A = List Request → Result KubeError A

-- `kube::Api` for each kind of object. The server answers by all the requests before; the object that
-- a create, patch or delete returns is left out, since the client drops it.
pub record Api : Type 0 where
  pub create_job : String → Job → Answer (Unit {0})
  pub list_jobs : String → String → Answer (List Job)
  pub delete_job : String → String → Answer (Unit {0})
  pub list_pods : String → Answer (List Pod)
  pub get_service : String → String → Answer Service
  pub create_virtual_service : String → DynamicObject → Answer (Unit {0})
  pub list_virtual_services : String → Answer (List DynamicObject)
  pub delete_virtual_service : String → String → Answer (Unit {0})
  pub get_experiment : String → String → Answer ChaosExperiment
  pub patch_experiment : String → String → Value → Answer (Unit {0})
  pub patch_experiment_status : String → String → Value → Answer (Unit {0})
  pub patch_analysis_status : String → String → Value → Answer (Unit {0})
  pub patch_impact_map_status : String → String → Value → Answer (Unit {0})

-- The JSON of a number of type `f64`, and `serde_json::from_value` at a `DynamicObject`, with the text of
-- its error.
pub record Serde (F : Type 0) : Type 0 where
  pub number : F → Value
  pub from_value : Value → Result String DynamicObject

-- A method: from the requests sent before, its result and the requests sent by then.
abbrev pub Op : Type 0 → Type 0
Op A = List Request → Result OperatorError A × List Request

-- `api.request().await?`: an error of the crate becomes an `OperatorError`
abbrev pub kube_error : {A : Type 0} → Result KubeError A → Result OperatorError A
kube_error (ok a) = ok a
kube_error (err e) = err (OperatorError.kube e)

abbrev pub send : {A : Type 0} → Request → Answer A → Op A
send r answer log = (kube_error (answer log), r ∷ log)

abbrev pub then_return : {A B : Type 0} → Op A → (A → B) → Op B
then_return m f log =
    let (r, log') = m log in elim r [ ok a ↦ (ok (f a), log') | err e ↦ (err e, log') ]
