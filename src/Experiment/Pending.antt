-- ===== src/Experiment/Pending.antt =====
-- src/operator/reconciler.rs: `handle_pending`, which validates the experiment and injects the chaos.
use ch_chaos.Base.{
  String, Bool, not, Option, none, some, List, [], ◌∷◌, Result, ok, err, if◌then◌else◌, ok_or,
  format, decimal, length, pure, raise, lift, or_panic, attempt, ◌>>=◌, ◌>>◌, unwrap_or, any,
  is_empty,
}
use ch_chaos.Types.{Phase, EdgeTarget, is_edge_chaos}
use ch_chaos.Errors.{
  ValidationError, OperatorError, validation, missing_edge_target, no_target_nodes,
  source_service_not_found, conflicting_virtual_service, validation_text, operator_text,
  is_already_exists,
}
use ch_chaos.Json.{Value, str, object, or_insert}
use ch_chaos.Objects.{Labels, Job}
use ch_chaos.Crd.{ChaosExperiment, ChaosExperimentStatus, default_experiment_status}
use ch_chaos.JobBuilder.{build_runner_job}
use ch_chaos.Istio.{
  fqdn, virtual_service_name, build_fault_for_scenario, build_virtual_service_json,
  is_chaos_managed,
}
use ch_chaos.Experiment.{
  KubeClient, EdgeResolver, System, ReconcilerConfig, VirtualServiceInfo, exp_name, exp_namespace,
  target_namespace, edge_of, validate_experiment, current_status,
}
use ch_chaos.Experiment.Kube
use ch_chaos.Experiment.Kube.{Op}
use ch_chaos.Experiment.Handlers.{patch_failed}

-- `if let Err(e) = create.await { if !is_already_exists(&e) { return Err(e); } }`
abbrev pub unless_exists : Result OperatorError (Unit {0}) → Op (Unit {0})
unless_exists (ok _) = pure tt
unless_exists (err e) = if is_already_exists e then pure tt else raise e

abbrev pub parameters_of : ChaosExperiment → Value
parameters_of experiment = unwrap_or experiment.spec.parameters (object [])

-- Is one of the VirtualServices that exist not the operator's?
unfoldable pub has_conflict : List VirtualServiceInfo → Bool
has_conflict = any (λ vs. not (is_chaos_managed vs.labels))

-- `status.experiment_id`, else the object's UID, else a fresh UUID
abbrev pub choose_id :
    {DateTime : Type 0} → System DateTime → Option String → Option String → Op String
choose_id sys (some eid) uid = pure eid
choose_id sys none (some uid) = pure uid
choose_id sys none none = Kube.new_uuid sys

module _ {DateTime : Type 0} (sys : System DateTime) (kube : KubeClient) where
  abbrev pub params_json : ChaosExperiment → String
  params_json experiment =
      sys.json_text
        (or_insert (parameters_of experiment) "namespace" (str (target_namespace experiment)))

  abbrev pub node_job : ChaosExperiment → String → ReconcilerConfig → String → Option Job
  node_job experiment experiment_id config node =
      build_runner_job experiment experiment_id node experiment.spec.scenario
        experiment.spec.duration (some (params_json experiment)) config.job_builder

  -- the loop over the nodes; the result is `job_names`
  unfoldable pub create_jobs :
      ChaosExperiment → String → ReconcilerConfig → List String → Op (List String)
  create_jobs experiment experiment_id config [] = pure []
  create_jobs experiment experiment_id config (node ∷ nodes) = do
    job ← or_panic (node_job experiment experiment_id config node)
    r ← attempt (Kube.create_job kube (exp_namespace experiment) job)
    unless_exists r
    names ← create_jobs experiment experiment_id config nodes
    pure (unwrap_or job.metadata.name "" ∷ names)

  abbrev pub running_status : String → String → String → List String → ChaosExperimentStatus
  running_status message started_at experiment_id runner_jobs = record default_experiment_status {
    phase = Phase.running;
    message = some message;
    started_at = some started_at;
    experiment_id = some experiment_id;
    runner_jobs = runner_jobs;
  }

  abbrev pub start : ChaosExperiment → String → String → List String → Op (Unit {0})
  start experiment message experiment_id runner_jobs = do
    now ← Kube.now_rfc3339 sys
    Kube.patch_experiment_status kube (exp_namespace experiment) (exp_name experiment)
        (running_status message now experiment_id runner_jobs)

  abbrev pub refuse : ChaosExperiment → String → Op (Unit {0})
  refuse experiment = patch_failed kube (exp_namespace experiment) (exp_name experiment)

  abbrev pub pod_message : ChaosExperiment → List String → String
  pod_message experiment nodes = format (
      "Running on "
      ∷ decimal (length nodes)
      ∷ " nodes for "
      ∷ decimal experiment.spec.duration
      ∷ "s"
      ∷ [])

  unfoldable pub handle_pending_pod : ChaosExperiment → String → ReconcilerConfig → Op (Unit {0})
  handle_pending_pod experiment experiment_id config = do
    nodes ← Kube.list_target_nodes kube (target_namespace experiment)
    if is_empty nodes then refuse experiment (validation_text no_target_nodes) else (do
      job_names ← create_jobs experiment experiment_id config nodes
      start experiment (pod_message experiment nodes) experiment_id job_names)

  abbrev pub edge_message : ChaosExperiment → EdgeTarget → String
  edge_message experiment edge_target = format (
      "Edge chaos "
      ∷ edge_target.source_service
      ∷ " → "
      ∷ edge_target.destination_service
      ∷ " for "
      ∷ decimal experiment.spec.duration
      ∷ "s"
      ∷ [])

  -- the VirtualService of the experiment, under the given name
  abbrev pub edge_service : ChaosExperiment → Labels → String → Value → String → Value
  edge_service experiment source_labels dest_fqdn fault vs_name =
      build_virtual_service_json (record {
        name = vs_name;
        namespace = target_namespace experiment;
        experiment_name = exp_name experiment;
        experiment_uid = unwrap_or experiment.metadata.uid "";
        destination_fqdn = dest_fqdn;
        source_labels = source_labels;
        fault = fault;
      })

  -- steps 4 and 5: build the fault, create the VirtualService, report
  abbrev pub create_edge :
      ChaosExperiment → String → EdgeTarget → Labels → String → Option Value → Op (Unit {0})
  create_edge experiment experiment_id edge_target source_labels dest_fqdn none =
      refuse experiment "cannot build fault for scenario"
  create_edge experiment experiment_id edge_target source_labels dest_fqdn (some fault) = do
    vs_name ← or_panic (virtual_service_name experiment_id)
    r ← attempt (
        Kube.create_virtual_service kube (target_namespace experiment)
          (edge_service experiment source_labels dest_fqdn fault vs_name))
    unless_exists r
    start experiment (edge_message experiment edge_target) experiment_id []

  -- step 3, of which only the error matters
  abbrev pub resolve :
      {F : Type 0}
      → Option (EdgeResolver F)
      → EdgeTarget
      → String
      → Op (Result OperatorError (Unit {0}))
  resolve none edge_target target_ns = pure (ok tt)
  resolve (some resolver) edge_target target_ns = attempt (do
    Kube.resolve_edge resolver edge_target.source_service edge_target.destination_service target_ns
    pure tt)

  abbrev pub inject_resolved :
      ChaosExperiment
      → String
      → EdgeTarget
      → Labels
      → String
      → Result OperatorError (Unit {0})
      → Op (Unit {0})
  inject_resolved experiment experiment_id edge_target source_labels dest_fqdn (err e) =
      refuse experiment (operator_text e)
  inject_resolved experiment experiment_id edge_target source_labels dest_fqdn (ok _) =
      create_edge experiment experiment_id edge_target source_labels dest_fqdn
        (build_fault_for_scenario experiment.spec.scenario (parameters_of experiment))

  -- steps 2 and 3: refuse a host with a foreign VirtualService, and an edge that is not observed
  unfoldable pub inject_edge :
      {F : Type 0}
      → ChaosExperiment
      → Option (EdgeResolver F)
      → String
      → EdgeTarget
      → Labels
      → Op (Unit {0})
  inject_edge experiment edge_resolver experiment_id edge_target source_labels = do
    let dest_fqdn = fqdn edge_target.destination_service (target_namespace experiment)
    existing_vs ← Kube.list_virtual_services_for_host kube (target_namespace experiment) dest_fqdn
    if has_conflict existing_vs
        then refuse experiment (validation_text (conflicting_virtual_service dest_fqdn))
        else (do
          r ← resolve edge_resolver edge_target (target_namespace experiment)
          inject_resolved experiment experiment_id edge_target source_labels dest_fqdn r)

  -- step 1: the labels of the source's pods; an error and an empty selector are the same
  abbrev pub with_labels :
      {F : Type 0}
      → ChaosExperiment
      → Option (EdgeResolver F)
      → String
      → EdgeTarget
      → Result OperatorError Labels
      → Op (Unit {0})
  with_labels experiment edge_resolver experiment_id edge_target (ok (l ∷ ls)) =
      inject_edge experiment edge_resolver experiment_id edge_target (l ∷ ls)
  with_labels experiment edge_resolver experiment_id edge_target _ =
      refuse experiment (validation_text (source_service_not_found edge_target.source_service))

  unfoldable pub handle_pending_edge :
      {F : Type 0} → ChaosExperiment → Option (EdgeResolver F) → String → Op (Unit {0})
  handle_pending_edge experiment edge_resolver experiment_id = do
    edge_target ← lift (ok_or (edge_of experiment.spec) (validation missing_edge_target))
    selector ←
        attempt
          (Kube.get_service_selector kube (target_namespace experiment) edge_target.source_service)
    with_labels experiment edge_resolver experiment_id edge_target selector

  abbrev pub inject :
      {F : Type 0}
      → ChaosExperiment
      → Option (EdgeResolver F)
      → ReconcilerConfig
      → String
      → Op (Unit {0})
  inject experiment edge_resolver config eid =
      if is_edge_chaos experiment.spec.scenario
      then handle_pending_edge experiment edge_resolver eid
      else handle_pending_pod experiment eid config

  abbrev pub handle_validated :
      {F : Type 0}
      → ChaosExperiment
      → Option (EdgeResolver F)
      → ReconcilerConfig
      → Result ValidationError (Unit {0})
      → Op (Unit {0})
  handle_validated experiment edge_resolver config (err e) = refuse experiment (validation_text e)
  handle_validated experiment edge_resolver config (ok _) = do
    eid ← choose_id sys (current_status experiment).experiment_id experiment.metadata.uid
    inject experiment edge_resolver config eid

  unfoldable pub handle_pending :
      {F : Type 0} → ChaosExperiment → Option (EdgeResolver F) → ReconcilerConfig → Op (Unit {0})
  handle_pending experiment edge_resolver config =
      handle_validated experiment edge_resolver config (validate_experiment experiment.spec)
