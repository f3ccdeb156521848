-- ===== src/Experiment/Advance/All.antt =====
-- When `reconcile` (src/operator/reconciler.rs) writes to the experiment.
use ch_chaos.Base.{◌≡◌, refl, Bool, true, false, List, Option, pure, done, attempt, if◌then◌else◌}
use ch_chaos.Types.{Phase, is_edge_chaos, is_terminal}
use ch_chaos.Crd.{ChaosExperiment}
use ch_chaos.Experiment.{
  Call, KubeClient, EdgeResolver, System, ReconcilerConfig, ReconcileResult, requeue,
  requeue_duration, needs_finalizer, is_being_deleted, exp_name, exp_namespace, current_status,
}
use ch_chaos.Experiment.Kube
use ch_chaos.Experiment.Kube.{Op}
use ch_chaos.Experiment.Handlers.{
  handle_deletion, handle_running, handle_terminal, delete_jobs, cleanup_edges,
}
use ch_chaos.Experiment.Pending.{handle_pending}
use ch_chaos.Experiment.Reconcile.{reconcile, dispatch, finish}
use ch_chaos.Experiment.Advance.{Idle, Reports, >>=-Reports, Reports->>=, write-Reports, if-Reports}
use ch_chaos.Experiment.Advance.Pending.{pending-Reports}
use ch_chaos.Experiment.Advance.Running.{running-Reports, terminal-Reports}

module _ {DateTime F : Type 0} (sys : System DateTime) (kube : KubeClient)
    (resolver : Option (EdgeResolver F)) (config : ReconcilerConfig) (e : ChaosExperiment) where
  abbrev I : Type 0
  I = Idle sys kube e

  remove_finalizer-Reports : Reports I (Kube.remove_finalizer kube (exp_namespace e) (exp_name e))
  remove_finalizer-Reports =
      write-Reports I (Call.remove_finalizer (exp_namespace e) (exp_name e))
        (kube.remove_finalizer (exp_namespace e) (exp_name e)) refl

  deletion-Reports : Reports I (handle_deletion kube e)
  unfolding handle_deletion
  deletion-Reports =
      >>=-Reports I (delete_jobs kube (exp_namespace e) (current_status e).runner_jobs) _ λ _.
        if-Reports I (is_edge_chaos e.spec.scenario) _ _
          (λ _. >>=-Reports I (attempt (cleanup_edges kube e)) _ (λ _. remove_finalizer-Reports))
          (λ _. remove_finalizer-Reports)

  abbrev finished : Bool → Op ReconcileResult
  finished b =
      if b then pure ReconcileResult.done else pure (requeue (requeue_duration Phase.running))

  finish_result : (b : Bool) (l : List Call) → (r : ReconcileResult) × (finished b l ≡ (done r, l))
  finish_result true l = (_, refl)
  finish_result false l = (_, refl)

  finish-Reports :
      is_terminal (current_status e).phase ≡ true → Reports I (finish sys kube resolver config e)
  finish-Reports over =
      Reports->>= I (handle_terminal kube e) _ (terminal-Reports sys kube e over)
        (λ _ l. finish_result (current_status e).cleanup_done l)

  dispatch-Reports :
      (p : Phase) → (current_status e).phase ≡ p → Reports I (dispatch sys kube resolver config p e)
  dispatch-Reports Phase.pending h =
      Reports->>= I (handle_pending sys kube e resolver config) _
        (pending-Reports I sys kube e resolver config)
        (λ _ l. (requeue (requeue_duration Phase.running), refl))
  dispatch-Reports Phase.running h =
      Reports->>= I (handle_running sys kube e) _ (running-Reports sys kube e h)
        (λ _ l. (requeue (requeue_duration Phase.running), refl))
  dispatch-Reports Phase.succeeded h = finish-Reports (rw h refl)
  dispatch-Reports Phase.failed h = finish-Reports (rw h refl)

  pub reconcile-Reports : Reports I (reconcile sys kube resolver config e)
  unfolding reconcile
  reconcile-Reports =
      if-Reports I (needs_finalizer e) _ _
        (λ _.
          Reports->>= I (Kube.add_finalizer kube (exp_namespace e) (exp_name e)) _
            (write-Reports I (Call.add_finalizer (exp_namespace e) (exp_name e))
              (kube.add_finalizer (exp_namespace e) (exp_name e)) refl)
            (λ _ l. (requeue 0, refl)))
        λ _.
          if-Reports I (is_being_deleted e) _ _
            (λ _.
              Reports->>= I (handle_deletion kube e) _ deletion-Reports
                (λ _ l. (ReconcileResult.done, refl)))
            (λ _. dispatch-Reports (current_status e).phase refl)
