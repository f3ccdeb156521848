-- ===== src/Experiment/Edge.antt =====
-- Edge chaos (`handle_pending_edge` of src/operator/reconciler.rs): the calls of an experiment that is
-- started, and the reasons for which one is refused.
use ch_chaos.Base.{
  String, ◌≡◌, true, false, none, some, List, [], ◌∷◌, ok, err, arith, settle, Any, All, inl, inr,
  refl, unwrap_or, format, decimal,
}
use ch_chaos.Types.{Phase, EdgeTarget, EdgeInfo}
use ch_chaos.Errors.{
  OperatorError, operator_text, validation_text, source_service_not_found,
  conflicting_virtual_service,
}
use ch_chaos.Json.{Value}
use ch_chaos.Objects.{Labels}
use ch_chaos.Crd.{ChaosExperiment, ChaosExperimentStatus}
use ch_chaos.Istio.{
  fqdn, build_fault_for_scenario, build_virtual_service_json, is_chaos_managed,
  virtual_service_name,
}
use ch_chaos.Experiment.{
  Call, KubeClient, EdgeResolver, System, VirtualServiceInfo, exp_name, exp_namespace,
  target_namespace, edge_of,
}
use ch_chaos.Experiment.Handlers.{patch_failed}
use ch_chaos.Experiment.Nodes.{IsAccepted, unless_exists-done}
use ch_chaos.Experiment.Pending.{parameters_of, has_conflict, inject_edge, handle_pending_edge}

-- the status of an experiment that is refused for a reason, written out
abbrev pub refused_status : String → ChaosExperimentStatus
refused_status reason = record {
  phase = Phase.failed;
  message = some reason;
  started_at = none;
  completed_at = none;
  experiment_id = none;
  runner_jobs = [];
  cleanup_done = false;
}

foreign :
    (vss : List VirtualServiceInfo)
    → Any (λ vs. is_chaos_managed vs.labels ≡ false) vss
    → has_conflict vss ≡ true
unfolding has_conflict
foreign [] h = elim h [ ]
foreign (vs ∷ vss) (inl h) = rw h refl
foreign (vs ∷ vss) (inr h) = ground (arith, foreign vss h)

none_foreign :
    (vss : List VirtualServiceInfo)
    → All (λ vs. is_chaos_managed vs.labels ≡ true) vss
    → has_conflict vss ≡ false
unfolding has_conflict
none_foreign [] h = refl
none_foreign (vs ∷ vss) (h, hs) = rw h (none_foreign vss hs)

module _ {DateTime F : Type 0} (sys : System DateTime) (kube : KubeClient) (e : ChaosExperiment)
    (resolver : EdgeResolver F) (eid : String) (target : EdgeTarget) (log : List Call) where
  abbrev pub host : String
  host = fqdn target.destination_service (target_namespace e)

  -- the logs after the first, second and third step
  abbrev pub looked_up : List Call
  looked_up = Call.get_service_selector (target_namespace e) target.source_service ∷ log

  abbrev pub listed : List Call
  listed = Call.list_virtual_services_for_host (target_namespace e) host ∷ looked_up

  abbrev pub resolved : List Call
  resolved =
      Call.resolve_edge target.source_service target.destination_service (target_namespace e)
      ∷ listed

  -- Why an edge experiment is refused: the reason that is reported, and the calls made by then.
  pub data Refusal : String → List Call → Type 0 where
    lookup_failed :
        {x : OperatorError}
        → kube.get_service_selector (target_namespace e) target.source_service log ≡ err x
        → Refusal (validation_text (source_service_not_found target.source_service)) looked_up
    no_selector :
        kube.get_service_selector (target_namespace e) target.source_service log ≡ ok []
        → Refusal (validation_text (source_service_not_found target.source_service)) looked_up
    conflict :
        {l : String × String} {ls : Labels} {vss : List VirtualServiceInfo}
        → kube.get_service_selector (target_namespace e) target.source_service log ≡ ok (l ∷ ls)
        → kube.list_virtual_services_for_host (target_namespace e) host looked_up ≡ ok vss
        → Any (λ vs. is_chaos_managed vs.labels ≡ false) vss
        → Refusal (validation_text (conflicting_virtual_service host)) listed
    unobserved :
        {l : String × String} {ls : Labels} {vss : List VirtualServiceInfo} {x : OperatorError}
        → kube.get_service_selector (target_namespace e) target.source_service log ≡ ok (l ∷ ls)
        → kube.list_virtual_services_for_host (target_namespace e) host looked_up ≡ ok vss
        → All (λ vs. is_chaos_managed vs.labels ≡ true) vss
        → resolver.resolve_edge target.source_service target.destination_service
            (target_namespace e)
            listed
          ≡ err x
        → Refusal (operator_text x) resolved
    no_fault :
        {l : String × String} {ls : Labels} {vss : List VirtualServiceInfo} {info : EdgeInfo F}
        → kube.get_service_selector (target_namespace e) target.source_service log ≡ ok (l ∷ ls)
        → kube.list_virtual_services_for_host (target_namespace e) host looked_up ≡ ok vss
        → All (λ vs. is_chaos_managed vs.labels ≡ true) vss
        → resolver.resolve_edge target.source_service target.destination_service
            (target_namespace e)
            listed
          ≡ ok info
        → build_fault_for_scenario e.spec.scenario (parameters_of e) ≡ none
        → Refusal "cannot build fault for scenario" resolved

  module _ (edge : edge_of e.spec ≡ some target) where
    -- An edge experiment whose source service cannot be looked up or has no selector, whose namespace has
    -- a VirtualService that is not the operator's, whose edge is not resolved, or for which there is no
    -- fault, is refused: after the calls by then, one status is written, which is Failed with that
    -- reason, and no VirtualService is created.
    pub handle_pending_edge-refuses :
        {reason : String} {calls : List Call}
        → Refusal reason calls
        → let status = refused_status reason in
          handle_pending_edge sys kube e (some resolver) eid log ≡ (
            settle (kube.patch_experiment_status (exp_namespace e) (exp_name e) status calls),
            Call.patch_experiment_status (exp_namespace e) (exp_name e) status ∷ calls,
          )
    unfolding handle_pending_edge inject_edge patch_failed
    handle_pending_edge-refuses (lookup_failed a) = ground (arith, edge, a)
    handle_pending_edge-refuses (no_selector a) = ground (arith, edge, a)
    handle_pending_edge-refuses (conflict {vss = vss} a b c) =
        ground (arith, edge, a, b, foreign vss c)
    handle_pending_edge-refuses (unobserved {vss = vss} a b c d) =
        ground (arith, edge, a, b, none_foreign vss c, d)
    handle_pending_edge-refuses (no_fault {vss = vss} a b c d f) =
        ground (arith, edge, a, b, none_foreign vss c, d, f)

    module _ {l : String × String} {ls : Labels} {vss : List VirtualServiceInfo} {info : EdgeInfo F}
        (fault : Value) (vs_name : String)
        (selected : kube.get_service_selector (target_namespace e) target.source_service log
          ≡ ok (l ∷ ls))
        (found : kube.list_virtual_services_for_host (target_namespace e) host looked_up ≡ ok vss)
        (free : All (λ vs. is_chaos_managed vs.labels ≡ true) vss)
        (seen : resolver.resolve_edge target.source_service target.destination_service
            (target_namespace e)
            listed
          ≡ ok info)
        (built : build_fault_for_scenario e.spec.scenario (parameters_of e) ≡ some fault)
        (is_named : virtual_service_name eid ≡ some vs_name) where
      abbrev pub service : Value
      service = build_virtual_service_json (record {
        name = vs_name;
        namespace = target_namespace e;
        experiment_name = exp_name e;
        experiment_uid = unwrap_or e.metadata.uid "";
        destination_fqdn = host;
        source_labels = l ∷ ls;
        fault = fault;
      })

      abbrev pub launched : List Call
      launched =
          Call.read_clock ∷ Call.create_virtual_service (target_namespace e) service ∷ resolved

      abbrev pub launch_status : ChaosExperimentStatus
      launch_status = record {
        phase = Phase.running;
        message = some (
            format (
              "Edge chaos "
              ∷ target.source_service
              ∷ " → "
              ∷ target.destination_service
              ∷ " for "
              ∷ decimal e.spec.duration
              ∷ "s"
              ∷ []));
        started_at = some (
            sys.to_rfc3339
              (sys.now (Call.create_virtual_service (target_namespace e) service ∷ resolved)));
        completed_at = none;
        experiment_id = some eid;
        runner_jobs = [];
        cleanup_done = false;
      }

      -- Where the source service has a selector, the namespace no foreign VirtualService, the edge is
      -- resolved, and the VirtualService is accepted (as new, or as already there), an edge experiment
      -- makes exactly these calls: the look-up, the list, the resolution, the creation of the
      -- VirtualService, in the namespace of `target_namespace`, with the selector's labels, the host and the
      -- fault, a read of the clock, and one status write, which is Running, started at that time, with the experiment's id and no Jobs.
      pub handle_pending_edge-launches :
          IsAccepted (kube.create_virtual_service (target_namespace e) service resolved)
          → handle_pending_edge sys kube e (some resolver) eid log ≡ (
            settle (
                kube.patch_experiment_status (exp_namespace e) (exp_name e) launch_status launched),
            Call.patch_experiment_status (exp_namespace e) (exp_name e) launch_status ∷ launched,
          )
      unfolding handle_pending_edge inject_edge
      handle_pending_edge-launches accepted = ground (
        arith,
        edge,
        selected,
        found,
        none_foreign vss free,
        seen,
        built,
        is_named,
        unless_exists-done (kube.create_virtual_service (target_namespace e) service resolved)
            (Call.create_virtual_service (target_namespace e) service ∷ resolved) accepted,
      )
