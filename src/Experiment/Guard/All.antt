-- ===== src/Experiment/Guard/All.antt =====
-- The calls of `reconcile` (src/operator/reconciler.rs).
use ch_chaos.Base.{◌≡◌, refl, true, false, Option}
use ch_chaos.Types.{Phase, is_terminal}
use ch_chaos.Crd.{ChaosExperiment}
use ch_chaos.Trace.{Emits, >>=-Emits, if-Emits, pure-Emits, request-Emits}
use ch_chaos.Experiment.{
  Call, KubeClient, EdgeResolver, System, ReconcilerConfig, needs_finalizer, is_being_deleted,
  current_status,
}
use ch_chaos.Experiment.Reconcile.{reconcile, dispatch, finish}
use ch_chaos.Experiment.Guard.{Allowed}
use ch_chaos.Experiment.Guard.Cleanup.{deletion-Allowed, terminal-Allowed}
use ch_chaos.Experiment.Guard.Running.{running-Allowed}
use ch_chaos.Experiment.Guard.Inject.{pending-Allowed}

module _ {DateTime F : Type 0} (sys : System DateTime) (kube : KubeClient)
    (resolver : Option (EdgeResolver F)) (config : ReconcilerConfig) (e : ChaosExperiment) where
  abbrev P : Call → Type 0
  P = Allowed kube e

  module _ (protected : needs_finalizer e ≡ false) (alive : is_being_deleted e ≡ false) where
    finish-Allowed :
        is_terminal (current_status e).phase ≡ true → Emits P (finish sys kube resolver config e)
    finish-Allowed over = >>=-Emits P _ _ (terminal-Allowed kube e protected alive over) λ _.
        if-Emits P (current_status e).cleanup_done _ _ (λ _. pure-Emits P _) (λ _. pure-Emits P _)

    dispatch-Allowed :
        (p : Phase) → (current_status e).phase ≡ p → Emits P (dispatch sys kube resolver config p e)
    dispatch-Allowed Phase.pending h =
        >>=-Emits P _ _ (pending-Allowed sys kube e protected alive h resolver config)
          (λ _. pure-Emits P _)
    dispatch-Allowed Phase.running h =
        >>=-Emits P _ _ (running-Allowed sys kube e protected alive h) (λ _. pure-Emits P _)
    dispatch-Allowed Phase.succeeded h = finish-Allowed (rw h)
    dispatch-Allowed Phase.failed h = finish-Allowed (rw h)

  -- Whatever the cluster answers, a reconcile makes only calls that are allowed: chaos is injected
  -- only for a valid, pending experiment with the finalizer that is not being deleted, Jobs in its own
  -- namespace for node chaos, each on a target node that the client listed, and VirtualServices in the
  -- target namespace for edge chaos, where the client gave a selector for the source service and listed
  -- no VirtualService but the operator's own; only recorded Jobs, and only VirtualServices listed as the
  -- operator's own for this experiment, are deleted, and only when the experiment is over; a status
  -- write starts or refuses a pending experiment, ends a running one with all else kept, or marks a
  -- finished one clean with all else kept; the finalizer is added where it is missing and removed where
  -- the experiment is being deleted.
  pub reconcile-Allowed : Emits (Allowed kube e) (reconcile sys kube resolver config e)
  unfolding reconcile
  reconcile-Allowed =
      if-Emits P (needs_finalizer e) _ _
        (λ missing.
          >>=-Emits P _ _ (request-Emits P _ _ (missing, refl, refl)) (λ _. pure-Emits P _))
        λ protected.
          if-Emits P (is_being_deleted e) _ _
            (λ deleted. >>=-Emits P _ _ (deletion-Allowed kube e deleted) (λ _. pure-Emits P _))
            (λ alive. dispatch-Allowed protected alive (current_status e).phase refl)
