-- ===== src/Experiment/Guard/Inject.antt =====
-- The calls of `handle_pending` (src/operator/reconciler.rs).
use ch_chaos.Base.{
  ◌≡◌, refl, inl, inr, Any, false, String, Option, none, some, List, [], ◌∷◌, Result, ok, err,
  is_empty, pure, unwrap_or,
}
use ch_chaos.Types.{Phase, is_edge_chaos}
use ch_chaos.Errors.{ValidationError, no_target_nodes, validation_text}
use ch_chaos.Objects.{Job}
use ch_chaos.Crd.{ChaosExperiment}
use ch_chaos.Trace.{
  Emits, >>=-Emits, if-Emits, pure-Emits, request-Emits, request->>=, or_panic->>=, attempt-Emits,
  same, more,
}
use ch_chaos.Experiment.{
  Call, KubeClient, EdgeResolver, System, ReconcilerConfig, needs_finalizer, is_being_deleted,
  exp_namespace, target_namespace, validate_experiment, current_status,
}
use ch_chaos.Experiment.Kube
use ch_chaos.Experiment.Kube.{Op}
use ch_chaos.Experiment.Pending.{
  unless_exists, choose_id, create_jobs, node_job, handle_pending_pod, pod_message,
  handle_validated, handle_pending,
}
use ch_chaos.Experiment.Nodes.{node_job-node}
use ch_chaos.Experiment.Guard.{Allowed, IsPlaced, job_node}
use ch_chaos.Experiment.Guard.Start.{
  refuse-Allowed, start-Allowed, unless_exists-Allowed, may_inject,
}
use ch_chaos.Experiment.Guard.Edge.{edge-Allowed}

module _ {DateTime : Type 0} (sys : System DateTime) (kube : KubeClient) (e : ChaosExperiment)
    (protected : needs_finalizer e ≡ false) (alive : is_being_deleted e ≡ false)
    (pending : (current_status e).phase ≡ Phase.pending) where
  abbrev P : Call → Type 0
  P = Allowed kube e

  module _ (valid : validate_experiment e.spec ≡ ok tt) where
    create_jobs-Allowed :
        (eid : String) (config : ReconcilerConfig) (nodes : List String)
        → is_edge_chaos e.spec.scenario ≡ false
        → ((job : Job) → Any (λ n. job_node job ≡ some n) nodes → IsPlaced kube e job)
        → Emits P (create_jobs sys kube e eid config nodes)
    unfolding create_jobs
    create_jobs-Allowed eid config [] pod placed = pure-Emits P []
    create_jobs-Allowed eid config (node ∷ nodes) pod placed =
        or_panic->>= P (node_job sys kube e eid config node) _ λ job built.
          >>=-Emits P _ _
            (attempt-Emits P (Kube.create_job kube (exp_namespace e) job) (
              request-Emits P _ _ (
                (may_inject sys kube e protected alive pending valid),
                pod,
                refl,
                placed job (inl (node_job-node sys kube e eid config node job built)),
              )))
            λ r.
              >>=-Emits P (unless_exists r) _
                (unless_exists-Allowed sys kube e protected alive pending r)
                λ _.
                  >>=-Emits P (create_jobs sys kube e eid config nodes)
                    (λ names. pure (unwrap_or job.metadata.name "" ∷ names))
                    (create_jobs-Allowed eid config nodes pod (λ j a. placed j (inr a)))
                    (λ names. pure-Emits P (unwrap_or job.metadata.name "" ∷ names))

    pod-Allowed :
        (eid : String) (config : ReconcilerConfig)
        → is_edge_chaos e.spec.scenario ≡ false
        → Emits P (handle_pending_pod sys kube e eid config)
    unfolding handle_pending_pod
    pod-Allowed eid config pod =
        request->>= P _ (kube.list_target_nodes (target_namespace e)) _ tt λ nodes log listed.
          if-Emits P (is_empty nodes) _ _
            (λ _.
              refuse-Allowed sys kube e protected alive pending (validation_text no_target_nodes))
            λ _.
              >>=-Emits P (create_jobs sys kube e eid config nodes) _
                (create_jobs-Allowed eid config nodes pod (λ job a. (log, nodes, listed, a)))
                (λ names.
                  start-Allowed sys kube e protected alive pending (pod_message sys kube e nodes)
                    eid names)

  module _ {F : Type 0} (resolver : Option (EdgeResolver F)) (config : ReconcilerConfig) where
    choose-Allowed : (a b : Option String) → Emits P (choose_id sys a b)
    choose-Allowed (some x) b = pure-Emits P x
    choose-Allowed none (some x) = pure-Emits P x
    choose-Allowed none none = record { run = λ log. more tt same }

    pub pending-Allowed : Emits P (handle_pending sys kube e resolver config)
    unfolding handle_pending
    pending-Allowed = by_validity (validate_experiment e.spec) refl
      where
        by_validity :
            (r : Result ValidationError (Unit {0}))
            → validate_experiment e.spec ≡ r
            → Emits P (handle_validated sys kube e resolver config r)
        by_validity (err x) h = refuse-Allowed sys kube e protected alive pending _
        by_validity (ok _) h = >>=-Emits P (choose_id sys _ _) _ (choose-Allowed _ _) λ eid.
            if-Emits P (is_edge_chaos e.spec.scenario) _ _
              (λ edge. edge-Allowed sys kube e protected alive pending h edge resolver eid)
              (λ pod. pod-Allowed h eid config pod)
