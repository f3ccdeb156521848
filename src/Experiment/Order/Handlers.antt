-- ===== src/Experiment/Order/Handlers.antt =====
-- The order of the calls of the handlers of a deletion, of a running and of a finished experiment
-- (src/operator/reconciler.rs).
use ch_chaos.Base.{ℕ, refl, String, Option, none, some, Result, ok, err, attempt}
use ch_chaos.Types.{Phase, is_edge_chaos}
use ch_chaos.Errors.{OperatorError}
use ch_chaos.Crd.{ChaosExperiment, ChaosExperimentStatus}
use ch_chaos.Trace.{request-Emits, attempt-Emits, pure-Emits, same, more}
use ch_chaos.Experiment.{
  KubeClient, System, exp_namespace, current_status, any_job_failed, all_jobs_succeeded,
}
use ch_chaos.Experiment.Kube
use ch_chaos.Experiment.Kube.{Op}
use ch_chaos.Experiment.Handlers.{
  patch_failed, mark_if_clean, delete_jobs, cleanup_edges, complete, complete_if_elapsed,
  is_duration_elapsed, handle_deletion, handle_running, handle_running_edge, handle_running_pod,
  handle_terminal,
}
use ch_chaos.Experiment.Order.{
  IsQuiet, Concludes, written, quiet->>=, quiet-Concludes, if-Concludes,
}
use ch_chaos.Experiment.Order.Steps.{delete_jobs-IsQuiet, cleanup-IsQuiet, elapsed-IsQuiet}

module _ (kube : KubeClient) (ns name : String) where
  pub patch-Concludes :
      (status : ChaosExperimentStatus)
      → Concludes (Kube.patch_experiment_status kube ns name status)
  patch-Concludes status = record { run = λ log. written refl same }

  release-Concludes : Concludes (Kube.remove_finalizer kube ns name)
  release-Concludes = record { run = λ log. written refl same }

  pub refuse-Concludes : (message : String) → Concludes (patch_failed kube ns name message)
  unfolding patch_failed
  refuse-Concludes message = patch-Concludes _

module _ (kube : KubeClient) (e : ChaosExperiment) where
  pub deletion-Concludes : Concludes (handle_deletion kube e)
  unfolding handle_deletion
  deletion-Concludes =
      quiet->>= (delete_jobs kube (exp_namespace e) (current_status e).runner_jobs) _
        (delete_jobs-IsQuiet kube _ _)
        λ _.
          if-Concludes (is_edge_chaos e.spec.scenario) _ _
            (quiet->>= (attempt (cleanup_edges kube e)) _
              (attempt-Emits IsQuiet _ (cleanup-IsQuiet kube _ _))
              (λ _. release-Concludes kube _ _))
            (release-Concludes kube _ _)

  if_clean-Concludes : (r : Result OperatorError (Unit {0})) → Concludes (mark_if_clean kube e r)
  if_clean-Concludes (ok _) = patch-Concludes kube _ _ _
  if_clean-Concludes (err x) = quiet-Concludes _ (pure-Emits IsQuiet tt)

  pub terminal-Concludes : Concludes (handle_terminal kube e)
  unfolding handle_terminal
  terminal-Concludes =
      if-Concludes (current_status e).cleanup_done _ _ (quiet-Concludes _ (pure-Emits IsQuiet tt)) (
        quiet->>= (delete_jobs kube (exp_namespace e) (current_status e).runner_jobs) _
          (delete_jobs-IsQuiet kube _ _)
          λ _.
            if-Concludes (is_edge_chaos e.spec.scenario) _ _
              (quiet->>= (attempt (cleanup_edges kube e)) (mark_if_clean kube e)
                (attempt-Emits IsQuiet _ (cleanup-IsQuiet kube _ _)) if_clean-Concludes)
              (patch-Concludes kube _ _ _))

module _ {DateTime : Type 0} (sys : System DateTime) (kube : KubeClient) where
  complete-Concludes :
      (name ns : String) (status : ChaosExperimentStatus) (phase : Phase) (message : String)
      → Concludes (complete sys kube name ns status phase message)
  unfolding complete
  complete-Concludes name ns status phase message = record {
    run = λ log. written refl (more refl same);
  }

  if_elapsed-Concludes :
      (name ns : String) (status : ChaosExperimentStatus) (n : ℕ) (message : String)
      (o : Option String)
      → Concludes (complete_if_elapsed sys kube name ns status n message o)
  unfolding is_duration_elapsed
  if_elapsed-Concludes name ns status n message none = quiet-Concludes _ (pure-Emits IsQuiet tt)
  if_elapsed-Concludes name ns status n message (some started_at) =
      quiet->>= (is_duration_elapsed sys started_at n) _ (elapsed-IsQuiet sys _ n) λ elapsed.
        if-Concludes elapsed _ _ (complete-Concludes name ns status _ message)
          (quiet-Concludes _ (pure-Emits IsQuiet tt))

  pub running-Concludes : (e : ChaosExperiment) → Concludes (handle_running sys kube e)
  unfolding handle_running handle_running_edge handle_running_pod
  running-Concludes e =
      if-Concludes (is_edge_chaos e.spec.scenario) _ _
        (if_elapsed-Concludes _ _ _ _ _ (current_status e).started_at)
        (quiet->>= (Kube.list_jobs kube _ _) _ (request-Emits IsQuiet _ _ refl) λ jobs.
          if-Concludes (any_job_failed jobs) _ _ (complete-Concludes _ _ _ _ _) (
            if-Concludes (all_jobs_succeeded jobs) _ _ (complete-Concludes _ _ _ _ _)
              (if_elapsed-Concludes _ _ _ _ _ (current_status e).started_at)))
