-- ===== src/Experiment/Guard/Running.antt =====
-- The calls of `handle_running` (src/operator/reconciler.rs).
use ch_chaos.Base.{ℕ, String, ◌≡◌, refl, true, false, Option, none, some}
use ch_chaos.Types.{Phase, is_edge_chaos, is_terminal}
use ch_chaos.Crd.{ChaosExperiment}
use ch_chaos.Trace.{Emits, >>=-Emits, if-Emits, pure-Emits, request-Emits, same, more}
use ch_chaos.Experiment.{
  Call, KubeClient, System, needs_finalizer, is_being_deleted, exp_name, exp_namespace,
  current_status, any_job_failed, all_jobs_succeeded,
}
use ch_chaos.Experiment.Handlers.{
  complete, complete_if_elapsed, elapsed_since, handle_running, handle_running_edge,
  handle_running_pod, is_duration_elapsed,
}
use ch_chaos.Experiment.Guard.{ended, Allowed}

module _ {DateTime : Type 0} (sys : System DateTime) (kube : KubeClient) (e : ChaosExperiment)
    (protected : needs_finalizer e ≡ false) (alive : is_being_deleted e ≡ false)
    (running : (current_status e).phase ≡ Phase.running) where
  abbrev P : Call → Type 0
  P = Allowed kube e

  complete-Allowed :
      (phase : Phase) (message : String)
      → is_terminal phase ≡ true
      → Emits P (complete sys kube (exp_name e) (exp_namespace e) (current_status e) phase message)
  unfolding complete
  complete-Allowed phase message over = record {
    run = λ log.
        more (protected, alive, refl, refl, ended phase message _ running over refl) (more tt same);
  }

  elapsed-Allowed : (o : Option DateTime) (duration : ℕ) → Emits P (elapsed_since sys o duration)
  elapsed-Allowed none duration = pure-Emits P false
  elapsed-Allowed (some start) duration = record { run = λ log. more tt same }

  if_elapsed-Allowed :
      (duration : ℕ) (message : String) (started_at : Option String)
      → Emits P (
          complete_if_elapsed sys kube
            (exp_name e)
            (exp_namespace e)
            (current_status e)
            duration
            message
            started_at)
  unfolding is_duration_elapsed
  if_elapsed-Allowed duration message none = pure-Emits P tt
  if_elapsed-Allowed duration message (some started_at) =
      >>=-Emits P _ _ (elapsed-Allowed (sys.parse_from_rfc3339 started_at) duration) λ elapsed.
        if-Emits P elapsed _ _ (λ _. complete-Allowed Phase.succeeded message refl)
          (λ _. pure-Emits P tt)

  pub running-Allowed : Emits P (handle_running sys kube e)
  unfolding handle_running handle_running_edge handle_running_pod
  running-Allowed =
      if-Emits P (is_edge_chaos e.spec.scenario) _ _
        (λ _. if_elapsed-Allowed _ _ (current_status e).started_at)
        λ _. >>=-Emits P _ _ (request-Emits P _ _ tt) λ jobs.
          if-Emits P (any_job_failed jobs) _ _ (λ _. complete-Allowed Phase.failed _ refl)
            λ _.
              if-Emits P (all_jobs_succeeded jobs) _ _
                (λ _. complete-Allowed Phase.succeeded _ refl)
                (λ _. if_elapsed-Allowed _ _ (current_status e).started_at)
