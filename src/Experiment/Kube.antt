-- ===== src/Experiment/Kube.antt =====
-- The calls of the injected clients as logged actions.
use ch_chaos.Base.{String, List, Action, request, observe, pure, ◌>>=◌}
use ch_chaos.Errors.{OperatorError}
use ch_chaos.Json.{Value}
use ch_chaos.Objects.{Labels, Job}
use ch_chaos.Types.{EdgeInfo, new_experiment_id, experiment_id_text}
use ch_chaos.Crd.{ChaosExperimentStatus}
use ch_chaos.Experiment.{Call, KubeClient, EdgeResolver, System, VirtualServiceInfo}

abbrev pub Op : Type 0 → Type 0
Op A = Action Call OperatorError A

abbrev pub resolve_edge : {F : Type 0} → EdgeResolver F → String → String → String → Op (EdgeInfo F)
resolve_edge r source destination ns =
    request (Call.resolve_edge source destination ns) (r.resolve_edge source destination ns)

abbrev pub utc_now : {DateTime : Type 0} → System DateTime → Op DateTime
utc_now sys = observe Call.read_clock sys.now

abbrev pub now_rfc3339 : {DateTime : Type 0} → System DateTime → Op String
now_rfc3339 sys = do now ← utc_now sys; pure (sys.to_rfc3339 now)

abbrev pub new_uuid : {DateTime : Type 0} → System DateTime → Op String
new_uuid sys =
    observe Call.new_uuid (λ log. experiment_id_text (new_experiment_id (sys.new_v4 log)))

module _ (kube : KubeClient) where
  abbrev pub create_job : String → Job → Op (Unit {0})
  create_job ns job = request (Call.create_job ns job) (kube.create_job ns job)

  abbrev pub list_jobs : String → String → Op (List Job)
  list_jobs ns selector = request (Call.list_jobs ns selector) (kube.list_jobs ns selector)

  abbrev pub delete_job : String → String → Op (Unit {0})
  delete_job ns name = request (Call.delete_job ns name) (kube.delete_job ns name)

  abbrev pub list_target_nodes : String → Op (List String)
  list_target_nodes ns = request (Call.list_target_nodes ns) (kube.list_target_nodes ns)

  abbrev pub get_service_selector : String → String → Op Labels
  get_service_selector ns name =
      request (Call.get_service_selector ns name) (kube.get_service_selector ns name)

  abbrev pub create_virtual_service : String → Value → Op (Unit {0})
  create_virtual_service ns vs =
      request (Call.create_virtual_service ns vs) (kube.create_virtual_service ns vs)

  abbrev pub list_virtual_services_for_host : String → String → Op (List VirtualServiceInfo)
  list_virtual_services_for_host ns host =
      request (Call.list_virtual_services_for_host ns host)
        (kube.list_virtual_services_for_host ns host)

  abbrev pub delete_virtual_service : String → String → Op (Unit {0})
  delete_virtual_service ns name =
      request (Call.delete_virtual_service ns name) (kube.delete_virtual_service ns name)

  abbrev pub patch_experiment_status : String → String → ChaosExperimentStatus → Op (Unit {0})
  patch_experiment_status ns name status =
      request (Call.patch_experiment_status ns name status)
        (kube.patch_experiment_status ns name status)

  abbrev pub add_finalizer : String → String → Op (Unit {0})
  add_finalizer ns name = request (Call.add_finalizer ns name) (kube.add_finalizer ns name)

  abbrev pub remove_finalizer : String → String → Op (Unit {0})
  remove_finalizer ns name = request (Call.remove_finalizer ns name) (kube.remove_finalizer ns name)
