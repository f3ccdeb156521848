-- ===== src/Experiment/Progress.antt =====
-- How an experiment moves on (`reconcile` of src/operator/reconciler.rs): the end of a running edge
-- experiment, and what follows the cleanup.
pub mod Jobs
use ch_chaos.Base.{
  ℕ, ◌<◌, ◌^◌, String, ◌≡◌, true, false, Option, some, List, ◌∷◌, ok, pos, done, arith, leb,
  if◌then◌else◌,
}
use ch_chaos.Types.{Phase, is_edge_chaos, is_terminal}
use ch_chaos.Crd.{ChaosExperiment, ChaosExperimentStatus}
use ch_chaos.Experiment.{
  Call, KubeClient, EdgeResolver, System, ReconcilerConfig, ReconcileResult, requeue,
  needs_finalizer, is_being_deleted, exp_name, exp_namespace, requeue_duration, current_status,
}
use ch_chaos.Experiment.Handlers.{
  handle_running, handle_running_edge, complete, is_duration_elapsed, handle_terminal,
}
use ch_chaos.Experiment.Reconcile.{reconcile}

module _ {DateTime F : Type 0} (sys : System DateTime) (kube : KubeClient)
    (resolver : Option (EdgeResolver F)) (config : ReconcilerConfig) (e : ChaosExperiment)
    (protected : needs_finalizer e ≡ false) (alive : is_being_deleted e ≡ false) where
  -- The status of an edge experiment that has ended, at a time read after the calls of the log.
  abbrev pub ended_status : List Call → ChaosExperimentStatus
  ended_status log = record (current_status e) {
    phase = Phase.succeeded;
    message = some "Edge chaos duration elapsed";
    completed_at = some (sys.to_rfc3339 (sys.now log));
  }

  -- A running edge experiment with the finalizer that is not being deleted, whose recorded start can be
  -- read, at a time that is `n` seconds later, where the client takes the status write: if its duration
  -- has passed, the reconcile reads the clock again and writes one status, which is Succeeded, with that
  -- time as its end and all else kept; if not, it calls nothing more. Either way it comes back in 5
  -- seconds. The duration is less than 2^63, so that it is not negative as an `i64`.
  pub reconcile-ends :
      (log : List Call) (started_at : String) (start : DateTime) (n : ℕ)
      → (current_status e).phase ≡ Phase.running
      → is_edge_chaos e.spec.scenario ≡ true
      → (current_status e).started_at ≡ some started_at
      → sys.parse_from_rfc3339 started_at ≡ some start
      → sys.seconds_since start (sys.now log) ≡ pos n
      → e.spec.duration < 2 ^ 63
      → let read = Call.read_clock ∷ log in
        let status = ended_status read in
        kube.patch_experiment_status (exp_namespace e) (exp_name e) status (Call.read_clock ∷ read)
          ≡ ok tt
        → reconcile sys kube resolver config e log ≡ (
          done (requeue 5),
          if leb e.spec.duration n
              then Call.patch_experiment_status (exp_namespace e) (exp_name e) status
                ∷ Call.read_clock
                ∷ read
              else read,
        )
  unfolding reconcile handle_running handle_running_edge complete is_duration_elapsed
      requeue_duration
  reconcile-ends log started_at start n running edge started parsed since small accepted =
      ground arith

  -- An experiment with the finalizer that is not being deleted, has a final phase and is marked clean is
  -- left alone: the reconcile calls nothing and asks not to be repeated.
  pub reconcile-rests :
      (log : List Call)
      → is_terminal (current_status e).phase ≡ true
      → (current_status e).cleanup_done ≡ true
      → reconcile sys kube resolver config e log ≡ (done ReconcileResult.done, log)
  unfolding reconcile handle_terminal
  reconcile-rests log over clean = ground arith
