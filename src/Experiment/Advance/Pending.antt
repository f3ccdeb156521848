-- ===== src/Experiment/Advance/Pending.antt =====
-- `handle_pending` (src/operator/reconciler.rs) starts or refuses the experiment where it gives a value.
use ch_chaos.Base.{
  refl, String, Option, none, some, List, [], ◌∷◌, Result, ok, err, is_empty, or_panic, lift, ok_or,
  attempt,
}
use ch_chaos.Types.{EdgeTarget, is_edge_chaos}
use ch_chaos.Errors.{ValidationError, OperatorError, validation, missing_edge_target}
use ch_chaos.Json.{Value}
use ch_chaos.Objects.{Labels}
use ch_chaos.Crd.{ChaosExperiment}
use ch_chaos.Istio.{build_fault_for_scenario, virtual_service_name}
use ch_chaos.Experiment.{
  KubeClient, EdgeResolver, System, ReconcilerConfig, exp_name, exp_namespace, target_namespace,
  validate_experiment, current_status, edge_of,
}
use ch_chaos.Experiment.Kube
use ch_chaos.Experiment.Handlers.{patch_failed}
use ch_chaos.Experiment.Pending.{
  unless_exists, running_status, parameters_of, has_conflict, choose_id, create_jobs, start, refuse,
  handle_pending_pod, create_edge, edge_service, edge_message, pod_message, resolve,
  inject_resolved, inject_edge, with_labels, handle_pending_edge, handle_validated, handle_pending,
}
use ch_chaos.Experiment.Advance.{Reports, >>=-Reports, write-Reports, patch-Reports, if-Reports}

module _ (I : Type 0) {DateTime : Type 0} (sys : System DateTime) (kube : KubeClient)
    (e : ChaosExperiment) where
  refuse-Reports : (message : String) → Reports I (refuse sys kube e message)
  unfolding patch_failed
  refuse-Reports message = write-Reports I _ _ refl

  start-Reports :
      (message eid : String) (jobs : List String) → Reports I (start sys kube e message eid jobs)
  start-Reports message eid jobs = >>=-Reports I (Kube.now_rfc3339 sys) _ λ now.
      patch-Reports I kube (exp_namespace e) (exp_name e)
        (running_status sys kube message now eid jobs)

  pod-Reports :
      (eid : String) (config : ReconcilerConfig)
      → Reports I (handle_pending_pod sys kube e eid config)
  unfolding handle_pending_pod
  pod-Reports eid config =
      >>=-Reports I (Kube.list_target_nodes kube (target_namespace e)) _ λ nodes.
        if-Reports I (is_empty nodes) _ _ (λ _. refuse-Reports _)
          λ _.
            >>=-Reports I (create_jobs sys kube e eid config nodes) _
              (λ names. start-Reports (pod_message sys kube e nodes) eid names)

  create_edge-Reports :
      (eid : String) (target : EdgeTarget) (labels : Labels) (host : String) (fault : Option Value)
      → Reports I (create_edge sys kube e eid target labels host fault)
  create_edge-Reports eid target labels host none = refuse-Reports _
  create_edge-Reports eid target labels host (some fault) =
      >>=-Reports I (or_panic (virtual_service_name eid)) _ λ vs_name.
        >>=-Reports I
          (attempt (
            Kube.create_virtual_service kube (target_namespace e)
              (edge_service sys kube e labels host fault vs_name)))
          _
          λ r.
            >>=-Reports I (unless_exists r) _
              (λ _. start-Reports (edge_message sys kube e target) eid [])

  module _ {F : Type 0} (resolver : Option (EdgeResolver F)) where
    resolved-Reports :
        (eid : String) (target : EdgeTarget) (labels : Labels) (host : String)
        (r : Result OperatorError (Unit {0}))
        → Reports I (inject_resolved sys kube e eid target labels host r)
    resolved-Reports eid target labels host (ok _) =
        create_edge-Reports eid target labels host
          (build_fault_for_scenario e.spec.scenario (parameters_of e))
    resolved-Reports eid target labels host (err x) = refuse-Reports _

    inject_edge-Reports :
        (eid : String) (target : EdgeTarget) (labels : Labels)
        → Reports I (inject_edge sys kube e resolver eid target labels)
    unfolding inject_edge
    inject_edge-Reports eid target labels =
        >>=-Reports I (Kube.list_virtual_services_for_host kube _ _) _ λ vss.
          if-Reports I (has_conflict vss) _ _ (λ _. refuse-Reports _)
            λ _.
              >>=-Reports I (resolve sys kube resolver target _) _
                (resolved-Reports eid target labels _)

    with_labels-Reports :
        (eid : String) (target : EdgeTarget) (r : Result OperatorError Labels)
        → Reports I (with_labels sys kube e resolver eid target r)
    with_labels-Reports eid target (ok (l ∷ ls)) = inject_edge-Reports eid target (l ∷ ls)
    with_labels-Reports eid target (ok []) = refuse-Reports _
    with_labels-Reports eid target (err x) = refuse-Reports _

    edge-Reports : (eid : String) → Reports I (handle_pending_edge sys kube e resolver eid)
    unfolding handle_pending_edge
    edge-Reports eid =
        >>=-Reports I (lift (ok_or (edge_of e.spec) (validation missing_edge_target))) _ λ target.
          >>=-Reports I (attempt (Kube.get_service_selector kube _ _))
            (with_labels sys kube e resolver eid target) (with_labels-Reports eid target)

    validated-Reports :
        (config : ReconcilerConfig) (r : Result ValidationError (Unit {0}))
        → Reports I (handle_validated sys kube e resolver config r)
    validated-Reports config (err x) = refuse-Reports _
    validated-Reports config (ok _) =
        >>=-Reports I (choose_id sys (current_status e).experiment_id e.metadata.uid) _ λ eid.
          if-Reports I (is_edge_chaos e.spec.scenario) _ _ (λ _. edge-Reports eid)
            (λ _. pod-Reports eid config)

    pub pending-Reports :
        (config : ReconcilerConfig) → Reports I (handle_pending sys kube e resolver config)
    unfolding handle_pending
    pending-Reports config = validated-Reports config (validate_experiment e.spec)
