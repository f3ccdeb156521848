-- ===== src/Experiment/Reconcile.antt =====
-- src/operator/reconciler.rs: `reconcile`, which dispatches on the finalizer, the deletion mark and
-- the phase.
use ch_chaos.Base.{Option, if◌then◌else◌, pure, ◌>>◌}
use ch_chaos.Types.{Phase}
use ch_chaos.Crd.{ChaosExperiment}
use ch_chaos.Experiment.{
  KubeClient, EdgeResolver, System, ReconcilerConfig, ReconcileResult, requeue, needs_finalizer,
  is_being_deleted, exp_name, exp_namespace, requeue_duration, current_status,
}
use ch_chaos.Experiment.Kube
use ch_chaos.Experiment.Kube.{Op}
use ch_chaos.Experiment.Handlers.{handle_deletion, handle_running, handle_terminal}
use ch_chaos.Experiment.Pending.{handle_pending}

module _ {DateTime F : Type 0} (sys : System DateTime) (kube : KubeClient)
    (edge_resolver : Option (EdgeResolver F)) (config : ReconcilerConfig) where
  abbrev pub finish : ChaosExperiment → Op ReconcileResult
  finish experiment = do
    handle_terminal kube experiment
    if (current_status experiment).cleanup_done
        then pure ReconcileResult.done
        else pure (requeue (requeue_duration Phase.running))

  -- `match status.phase`
  abbrev pub dispatch : Phase → ChaosExperiment → Op ReconcileResult
  dispatch Phase.pending experiment = do
    handle_pending sys kube experiment edge_resolver config
    pure (requeue (requeue_duration Phase.running))
  dispatch Phase.running experiment = do
    handle_running sys kube experiment
    pure (requeue (requeue_duration Phase.running))
  dispatch Phase.succeeded experiment = finish experiment
  dispatch Phase.failed experiment = finish experiment

  unfoldable pub reconcile : ChaosExperiment → Op ReconcileResult
  reconcile experiment =
      if needs_finalizer experiment
      then (do
        Kube.add_finalizer kube (exp_namespace experiment) (exp_name experiment)
        pure (requeue 0))
      else if is_being_deleted experiment
      then (do handle_deletion kube experiment; pure ReconcileResult.done)
      else dispatch (current_status experiment).phase experiment
