-- ===== src/Client/Methods.antt =====
-- src/operator/kube_client.rs: each method of `RealKubeClient` as the requests that it sends.
use ch_chaos.Base.{
  String, Option, none, some, List, [], ◌∷◌, map, Result, ok, err, unwrap_or, and_then,
  if◌then◌else◌, str_eq, sort_by, text_le,
}
use ch_chaos.Types.{finalizer_name}
use ch_chaos.Errors.{serialization}
use ch_chaos.Json.{Value, str, object, single, arr, nil}
use ch_chaos.Objects.{Labels, Job}
use ch_chaos.Crd.{
  ChaosExperimentSpec, ChaosExperimentStatus, ChaosAnalysisStatus, ChaosImpactMapStatus,
  default_experiment_status,
}
use ch_chaos.Crd.Encoding.Reports.{analysis_members, impact_map_members}
use ch_chaos.Crd.Encoding.{status_members}
use ch_chaos.Experiment.{VirtualServiceInfo}
use ch_chaos.Client.{Pod, Service, DynamicObject, Request, Api, Serde, Op, send, then_return}

-- `p.spec.as_ref()?.node_name.clone()`
abbrev pub node_of : Pod → Option String
node_of p = and_then p.spec (λ s. s.node_name)

abbrev pub push : Option String → List String → List String
push none l = l
push (some s) l = s ∷ l

-- `filter_map`
unfoldable pub node_names : List Pod → List String
node_names [] = []
node_names (p ∷ pods) = push (node_of p) (node_names pods)

abbrev pub keep : String → List String → List String
keep s [] = s ∷ []
keep s (t ∷ l) = if str_eq s t then t ∷ l else s ∷ t ∷ l

-- `Vec::dedup`: one of each run of equal texts
unfoldable pub dedup : List String → List String
dedup [] = []
dedup (s ∷ l) = keep s (dedup l)

unfoldable pub target_nodes : List Pod → List String
unfolding node_names dedup sort_by text_le
target_nodes pods = dedup (sort_by text_le (node_names pods))

abbrev pub selector_of : Service → Labels
selector_of svc = unwrap_or (and_then svc.spec (λ s. s.selector)) []

-- `ResourceExt::name_any`
abbrev pub name_any : DynamicObject → String
name_any vs = unwrap_or vs.metadata.name (unwrap_or vs.generate_name "")

abbrev pub info_of : DynamicObject → VirtualServiceInfo
info_of vs = record { name = name_any vs; labels = unwrap_or vs.metadata.labels [] }

-- `json!({ "status": status })`
abbrev pub status_patch : Value → Value
status_patch status = object (("status", status) ∷ [])

-- `json!({ "metadata": { "finalizers": [..] } })`
abbrev pub finalizers_patch : Value → Value
finalizers_patch names = object (("metadata", object (("finalizers", names) ∷ [])) ∷ [])

module _ {F : Type 0} (api : Api) (serde : Serde F) where
  unfoldable pub create_job : String → Job → Op (Unit {0})
  create_job ns job = send (Request.create_job ns job) (api.create_job ns job)

  unfoldable pub list_jobs : String → String → Op (List Job)
  list_jobs ns selector = send (Request.list_jobs ns selector) (api.list_jobs ns selector)

  unfoldable pub delete_job : String → String → Op (Unit {0})
  delete_job ns name = send (Request.delete_job ns name) (api.delete_job ns name)

  unfoldable pub list_target_nodes : String → Op (List String)
  list_target_nodes ns = then_return (send (Request.list_pods ns) (api.list_pods ns)) target_nodes

  unfoldable pub get_service_selector : String → String → Op Labels
  get_service_selector ns name =
      then_return (send (Request.get_service ns name) (api.get_service ns name)) selector_of

  abbrev create_parsed : String → Result String DynamicObject → Op (Unit {0})
  create_parsed ns (ok vs) =
      send (Request.create_virtual_service ns vs) (api.create_virtual_service ns vs)
  create_parsed ns (err text) = λ log. (err (serialization text), log)

  unfoldable pub create_virtual_service : String → Value → Op (Unit {0})
  create_virtual_service ns vs_json = create_parsed ns (serde.from_value vs_json)

  -- The host is not used.
  unfoldable pub list_virtual_services_for_host : String → String → Op (List VirtualServiceInfo)
  list_virtual_services_for_host ns host =
      then_return (send (Request.list_virtual_services ns) (api.list_virtual_services ns))
        (map info_of)

  unfoldable pub delete_virtual_service : String → String → Op (Unit {0})
  delete_virtual_service ns name =
      send (Request.delete_virtual_service ns name) (api.delete_virtual_service ns name)

  unfoldable pub patch_experiment_status : String → String → ChaosExperimentStatus → Op (Unit {0})
  unfolding status_members
  patch_experiment_status ns name status =
      let patch = status_patch (Value.obj (status_members status)) in
      send (Request.patch_experiment_status ns name patch)
        (api.patch_experiment_status ns name patch)

  unfoldable pub add_finalizer : String → String → Op (Unit {0})
  add_finalizer ns name =
      let patch = finalizers_patch (single (str finalizer_name)) in
      send (Request.patch_experiment ns name patch) (api.patch_experiment ns name patch)

  unfoldable pub remove_finalizer : String → String → Op (Unit {0})
  remove_finalizer ns name =
      let patch = finalizers_patch (arr nil) in
      send (Request.patch_experiment ns name patch) (api.patch_experiment ns name patch)

  -- of `AnalysisKubeClient` and of `ImpactMapKubeClient` alike
  unfoldable pub get_experiment_status : String → String → Op ChaosExperimentStatus
  get_experiment_status ns name =
      then_return (send (Request.get_experiment ns name) (api.get_experiment ns name))
        (λ e. unwrap_or e.status default_experiment_status)

  unfoldable pub get_experiment_spec : String → String → Op ChaosExperimentSpec
  get_experiment_spec ns name =
      then_return (send (Request.get_experiment ns name) (api.get_experiment ns name)) (λ e. e.spec)

  unfoldable pub patch_analysis_status : String → String → ChaosAnalysisStatus F → Op (Unit {0})
  unfolding analysis_members
  patch_analysis_status ns name status =
      let patch = status_patch (Value.obj (analysis_members serde.number status)) in
      send (Request.patch_analysis_status ns name patch) (api.patch_analysis_status ns name patch)

  unfoldable pub patch_impact_map_status : String → String → ChaosImpactMapStatus F → Op (Unit {0})
  unfolding impact_map_members
  patch_impact_map_status ns name status =
      let patch = status_patch (Value.obj (impact_map_members serde.number status)) in
      send (Request.patch_impact_map_status ns name patch)
        (api.patch_impact_map_status ns name patch)
