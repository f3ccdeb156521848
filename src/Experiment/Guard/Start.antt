-- ===== src/Experiment/Guard/Start.antt =====
-- What `handle_pending` shares between node and edge chaos (src/operator/reconciler.rs): the refusal of
-- an experiment, its start, and creations of what is already there.
use ch_chaos.Base.{◌≡◌, refl, false, String, List, Result, ok, err}
use ch_chaos.Types.{Phase}
use ch_chaos.Errors.{OperatorError, is_already_exists}
use ch_chaos.Crd.{ChaosExperiment}
use ch_chaos.Trace.{Emits, if-Emits, pure-Emits, raise-Emits, request-Emits, same, more}
use ch_chaos.Experiment.{
  Call, KubeClient, System, needs_finalizer, is_being_deleted, validate_experiment, current_status,
}
use ch_chaos.Experiment.Handlers.{patch_failed}
use ch_chaos.Experiment.Pending.{unless_exists, start, refuse}
use ch_chaos.Experiment.Guard.{started, refused, MayInject, Allowed}

module _ {DateTime : Type 0} (sys : System DateTime) (kube : KubeClient) (e : ChaosExperiment)
    (protected : needs_finalizer e ≡ false) (alive : is_being_deleted e ≡ false)
    (pending : (current_status e).phase ≡ Phase.pending) where
  abbrev P : Call → Type 0
  P = Allowed kube e

  pub refuse-Allowed : (message : String) → Emits P (refuse sys kube e message)
  unfolding patch_failed
  refuse-Allowed message =
      request-Emits P _ _ (protected, alive, refl, refl, refused message pending refl)

  pub start-Allowed :
      (message eid : String) (jobs : List String) → Emits P (start sys kube e message eid jobs)
  start-Allowed message eid jobs = record {
    run = λ log. more (protected, alive, refl, refl, started pending refl refl) (more tt same);
  }

  pub unless_exists-Allowed : (r : Result OperatorError (Unit {0})) → Emits P (unless_exists r)
  unless_exists-Allowed (ok _) = pure-Emits P tt
  unless_exists-Allowed (err x) =
      if-Emits P (is_already_exists x) _ _ (λ _. pure-Emits P tt) (λ _. raise-Emits P x)

  module _ (valid : validate_experiment e.spec ≡ ok tt) where
    pub may_inject : MayInject e
    may_inject = record { protected = protected; alive = alive; pending = pending; valid = valid }
