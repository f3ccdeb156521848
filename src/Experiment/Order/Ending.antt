-- ===== src/Experiment/Order/Ending.antt =====
-- The order of the calls of `handle_pending`, and of `reconcile` (src/operator/reconciler.rs).
use ch_chaos.Base.{
  refl, String, Option, none, some, List, [], ◌∷◌, Result, ok, err, is_empty, or_panic, lift, ok_or,
  pure, attempt, arith, if◌then◌else◌,
}
use ch_chaos.Types.{Phase, EdgeTarget, is_edge_chaos}
use ch_chaos.Errors.{ValidationError, OperatorError, validation, missing_edge_target}
use ch_chaos.Json.{Value}
use ch_chaos.Objects.{Labels}
use ch_chaos.Crd.{ChaosExperiment}
use ch_chaos.Trace.{request-Emits, attempt-Emits, same, more}
use ch_chaos.Istio.{build_fault_for_scenario, virtual_service_name}
use ch_chaos.Experiment.{
  KubeClient, EdgeResolver, System, ReconcilerConfig, ReconcileResult, requeue, requeue_duration,
  needs_finalizer, is_being_deleted, exp_name, exp_namespace, target_namespace, validate_experiment,
  current_status, edge_of,
}
use ch_chaos.Experiment.Kube
use ch_chaos.Experiment.Kube.{Op}
use ch_chaos.Experiment.Handlers.{handle_deletion, handle_running, handle_terminal}
use ch_chaos.Experiment.Pending.{
  unless_exists, parameters_of, has_conflict, choose_id, create_jobs, start, handle_pending_pod,
  create_edge, edge_service, edge_message, pod_message, resolve, inject_resolved, inject_edge,
  with_labels, handle_pending_edge, handle_validated, handle_pending,
}
use ch_chaos.Experiment.Reconcile.{reconcile, dispatch, finish}
use ch_chaos.Experiment.Order.{IsQuiet, Concludes, written, quiet->>=, >>=-silent, if-Concludes}
use ch_chaos.Experiment.Order.Steps.{
  unless_exists-IsQuiet, choose_id-IsQuiet, create_jobs-IsQuiet, resolve-IsQuiet,
}
use ch_chaos.Experiment.Order.Handlers.{
  refuse-Concludes, deletion-Concludes, terminal-Concludes, running-Concludes,
}

module _ {DateTime : Type 0} (sys : System DateTime) (kube : KubeClient) where
  module _ (e : ChaosExperiment) where
    start-Concludes :
        (message eid : String) (jobs : List String) → Concludes (start sys kube e message eid jobs)
    start-Concludes message eid jobs = record { run = λ log. written refl (more refl same) }

    pod-Concludes :
        (eid : String) (config : ReconcilerConfig)
        → Concludes (handle_pending_pod sys kube e eid config)
    unfolding handle_pending_pod
    pod-Concludes eid config =
        quiet->>= (Kube.list_target_nodes kube (target_namespace e)) _
          (request-Emits IsQuiet _ _ refl)
          λ nodes. if-Concludes (is_empty nodes) _ _ (refuse-Concludes kube _ _ _) (
            quiet->>= (create_jobs sys kube e eid config nodes) _
              (create_jobs-IsQuiet sys kube e eid config nodes)
              (λ names. start-Concludes (pod_message sys kube e nodes) eid names))

    create_edge-Concludes :
        (eid : String) (target : EdgeTarget) (labels : Labels) (host : String)
        (fault : Option Value)
        → Concludes (create_edge sys kube e eid target labels host fault)
    create_edge-Concludes eid target labels host none = refuse-Concludes kube _ _ _
    create_edge-Concludes eid target labels host (some fault) =
        quiet->>= (or_panic (virtual_service_name eid)) _ (record { run = λ log. same })
          λ vs_name.
            quiet->>=
              (attempt (
                Kube.create_virtual_service kube (target_namespace e)
                  (edge_service sys kube e labels host fault vs_name)))
              _ (attempt-Emits IsQuiet _ (request-Emits IsQuiet _ _ refl))
              λ r.
                quiet->>= (unless_exists r) _ (unless_exists-IsQuiet r)
                  (λ _. start-Concludes (edge_message sys kube e target) eid [])

    module _ {F : Type 0} (resolver : Option (EdgeResolver F)) where
      resolved-Concludes :
          (eid : String) (target : EdgeTarget) (labels : Labels) (host : String)
          (r : Result OperatorError (Unit {0}))
          → Concludes (inject_resolved sys kube e eid target labels host r)
      resolved-Concludes eid target labels host (ok _) =
          create_edge-Concludes eid target labels host
            (build_fault_for_scenario e.spec.scenario (parameters_of e))
      resolved-Concludes eid target labels host (err x) = refuse-Concludes kube _ _ _

      inject_edge-Concludes :
          (eid : String) (target : EdgeTarget) (labels : Labels)
          → Concludes (inject_edge sys kube e resolver eid target labels)
      unfolding inject_edge
      inject_edge-Concludes eid target labels =
          quiet->>= (Kube.list_virtual_services_for_host kube _ _) _
            (request-Emits IsQuiet _ _ refl)
            λ vss. if-Concludes (has_conflict vss) _ _ (refuse-Concludes kube _ _ _) (
              quiet->>= (resolve sys kube resolver target _) _
                (resolve-IsQuiet sys kube e resolver target _)
                (resolved-Concludes eid target labels _))

      with_labels-Concludes :
          (eid : String) (target : EdgeTarget) (r : Result OperatorError Labels)
          → Concludes (with_labels sys kube e resolver eid target r)
      with_labels-Concludes eid target (ok (l ∷ ls)) = inject_edge-Concludes eid target (l ∷ ls)
      with_labels-Concludes eid target (ok []) = refuse-Concludes kube _ _ _
      with_labels-Concludes eid target (err x) = refuse-Concludes kube _ _ _

      edge-Concludes : (eid : String) → Concludes (handle_pending_edge sys kube e resolver eid)
      unfolding handle_pending_edge
      edge-Concludes eid =
          quiet->>= (lift (ok_or (edge_of e.spec) (validation missing_edge_target))) _
            (record { run = λ log. same })
            λ target.
              quiet->>= (attempt (Kube.get_service_selector kube _ _))
                (with_labels sys kube e resolver eid target)
                (attempt-Emits IsQuiet _ (request-Emits IsQuiet _ _ refl))
                (with_labels-Concludes eid target)

      module _ (config : ReconcilerConfig) where
        validated-Concludes :
            (r : Result ValidationError (Unit {0}))
            → Concludes (handle_validated sys kube e resolver config r)
        validated-Concludes (err x) = refuse-Concludes kube _ _ _
        validated-Concludes (ok _) =
            quiet->>= (choose_id sys (current_status e).experiment_id e.metadata.uid) _
              (choose_id-IsQuiet sys _ _)
              λ eid.
                if-Concludes (is_edge_chaos e.spec.scenario) _ _ (edge-Concludes eid)
                  (pod-Concludes eid config)

        pending-Concludes : Concludes (handle_pending sys kube e resolver config)
        unfolding handle_pending
        pending-Concludes = validated-Concludes (validate_experiment e.spec)

        abbrev again : Unit {0} → Op ReconcileResult
        again _ = pure (requeue (requeue_duration Phase.running))

        abbrev next : Unit {0} → Op ReconcileResult
        next _ =
            if (current_status e).cleanup_done
            then pure ReconcileResult.done
            else pure (requeue (requeue_duration Phase.running))

        finish-Concludes : Concludes (finish sys kube resolver config e)
        finish-Concludes =
            >>=-silent (handle_terminal kube e) next (terminal-Concludes kube e)
              (λ _ l. ground arith)

        dispatch-Concludes : (p : Phase) → Concludes (dispatch sys kube resolver config p e)
        dispatch-Concludes Phase.pending =
            >>=-silent (handle_pending sys kube e resolver config) again pending-Concludes
              (λ _ _. refl)
        dispatch-Concludes Phase.running =
            >>=-silent (handle_running sys kube e) again (running-Concludes sys kube e)
              (λ _ _. refl)
        dispatch-Concludes Phase.succeeded = finish-Concludes
        dispatch-Concludes Phase.failed = finish-Concludes

        protect-Concludes : Concludes (Kube.add_finalizer kube (exp_namespace e) (exp_name e))
        protect-Concludes = record { run = λ log. written refl same }

        -- Whatever the cluster answers, a reconcile writes to the experiment at most once, and the write
        -- is its last call: chaos is injected before it is reported, and removed before it is reported as
        -- removed or the finalizer is taken away.
        pub reconcile-Concludes : Concludes (reconcile sys kube resolver config e)
        unfolding reconcile
        reconcile-Concludes =
            if-Concludes (needs_finalizer e) _ _
              (>>=-silent (Kube.add_finalizer kube _ _) (λ _. pure (requeue 0)) protect-Concludes
                (λ _ _. refl))
              (if-Concludes (is_being_deleted e) _ _
                (>>=-silent (handle_deletion kube e) (λ _. pure ReconcileResult.done)
                  (deletion-Concludes kube e) (λ _ _. refl))
                (dispatch-Concludes (current_status e).phase))
