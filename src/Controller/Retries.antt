-- ===== src/Controller/Retries.antt =====
-- When the controller of the experiments comes back to one (src/operator/controller.rs).
use ch_chaos.Base.{
  follow, ℕ, ◌≤◌, ◌≡◌, ◌≢◌, refl, ◌⊎◌, inl, inr, arith, Bool, true, false, Option, some, List,
  Outcome, done, fail, panic, pure, ◌>>=◌, if◌then◌else◌,
}
use ch_chaos.Types.{Phase, is_terminal}
use ch_chaos.Errors.{OperatorError}
use ch_chaos.Crd.{ChaosExperiment}
use ch_chaos.Experiment.{
  Call, KubeClient, EdgeResolver, System, ReconcilerConfig, ReconcileResult, needs_finalizer,
  is_being_deleted, current_status, requeue_duration,
}
use ch_chaos.Experiment.Kube.{Op}
use ch_chaos.Experiment.Reconcile.{reconcile, dispatch, finish}
use ch_chaos.Controller.{
  experiment_controller, OperatorContext, Action, requeue, await_change, action_of, next_action,
  error_policy, reconcile_handler,
}

-- Nothing is left to do for the experiment: its deletion is handled, or it is over and cleaned up.
abbrev pub IsSettled : ChaosExperiment → Type 0
IsSettled e =
    (needs_finalizer e ≡ false)
    × ((is_being_deleted e ≡ true)
        ⊎ ((is_terminal (current_status e).phase ≡ true)
            × ((current_status e).cleanup_done ≡ true)))

-- If it gives a value, that satisfies `Q`.
abbrev Gives : {A : Type 0} → (A → Type 0) → Outcome OperatorError A → Type 0
Gives Q (done a) = Q a
Gives Q (fail e) = Unit
Gives Q panic = Unit

record Ends {A : Type 0} (Q : A → Type 0) (m : Op A) : Type 0 where
  run : (log : List Call) → Gives Q (m log).0

module _ {B : Type 0} (Q : B → Type 0) where
  follow_Gives :
      {A : Type 0} (f : A → Op B) (r : Outcome OperatorError A × List Call)
      → ((a : A) → Ends Q (f a))
      → Gives Q (follow f r).0
  follow_Gives f (done a, l) h = (h a).run l
  follow_Gives f (fail e, l) h = tt
  follow_Gives f (panic, l) h = tt

  >>=-Ends : {A : Type 0} (m : Op A) (f : A → Op B) → ((a : A) → Ends Q (f a)) → Ends Q (m >>= f)
  >>=-Ends m f h = record { run = λ log. follow_Gives f (m log) h }

  pure-Ends : (b : B) → Q b → Ends Q (pure b)
  pure-Ends b q = record { run = λ log. q }

  if-Ends :
      (b : Bool) (m n : Op B)
      → (b ≡ true → Ends Q m)
      → (b ≡ false → Ends Q n)
      → Ends Q (if b then m else n)
  if-Ends true m n h k = h refl
  if-Ends false m n h k = k refl

abbrev Due : ChaosExperiment → ReconcileResult → Type 0
Due e (ReconcileResult.requeue n) = n ≤ 30
Due e ReconcileResult.done = IsSettled e

module _ {DateTime F : Type 0} (sys : System DateTime) (kube : KubeClient)
    (resolver : Option (EdgeResolver F)) (config : ReconcilerConfig) (e : ChaosExperiment) where
  module _ (protected : needs_finalizer e ≡ false) where
    finish-Ends :
        is_terminal (current_status e).phase ≡ true
        → Ends (Due e) (finish sys kube resolver config e)
    unfolding requeue_duration
    finish-Ends over = >>=-Ends (Due e) _ _ λ _.
        if-Ends (Due e) (current_status e).cleanup_done _ _
          (λ clean. pure-Ends (Due e) _ (protected, inr (over, clean)))
          (λ _. pure-Ends (Due e) _ (omega arith))

    dispatch-Ends :
        (p : Phase)
        → (current_status e).phase ≡ p
        → Ends (Due e) (dispatch sys kube resolver config p e)
    unfolding requeue_duration
    dispatch-Ends Phase.pending h = >>=-Ends (Due e) _ _ (λ _. pure-Ends (Due e) _ (omega arith))
    dispatch-Ends Phase.running h = >>=-Ends (Due e) _ _ (λ _. pure-Ends (Due e) _ (omega arith))
    dispatch-Ends Phase.succeeded h = finish-Ends (rw h refl)
    dispatch-Ends Phase.failed h = finish-Ends (rw h refl)

  reconcile-Ends : Ends (Due e) (reconcile sys kube resolver config e)
  unfolding reconcile
  reconcile-Ends =
      if-Ends (Due e) (needs_finalizer e) _ _
        (λ _. >>=-Ends (Due e) _ _ (λ _. pure-Ends (Due e) _ (omega arith)))
        λ protected.
          if-Ends (Due e) (is_being_deleted e) _ _
            (λ deleted. >>=-Ends (Due e) _ _ (λ _. pure-Ends (Due e) _ (protected, inl deleted)))
            (λ _. dispatch-Ends protected (current_status e).phase refl)

-- The controller waits for a change of a settled experiment, or comes back within 30 seconds.
abbrev pub ComesBack : ChaosExperiment → Option Action → Type 0
ComesBack e o =
    ((o ≡ some await_change) × IsSettled e) ⊎ ((n : ℕ) × (o ≡ some (requeue n)) × (n ≤ 30))

module _ {DateTime F : Type 0} (sys : System DateTime) (ctx : OperatorContext F)
    (e : ChaosExperiment) where
  given :
      (r : Outcome OperatorError ReconcileResult × List Call)
      → Gives (Due e) r.0
      → (follow (λ result. pure (action_of result)) r).0 ≢ panic
      → ComesBack e (next_action error_policy (follow (λ result. pure (action_of result)) r).0)
  unfolding error_policy
  given (done (ReconcileResult.requeue n), l) due h = inr (n, refl, due)
  given (done ReconcileResult.done, l) due h = inl (refl, due)
  given (fail x, l) due h = inr (30, refl, omega arith)
  given (panic, l) due h = absurd (h refl)

  -- Whatever the API server and Prometheus answer, unless the reconcile panics the controller comes
  -- back to the experiment within 30 seconds, an error of any kind included; it waits for a change only
  -- where the experiment has the finalizer and is being deleted, or is over and marked clean.
  pub reconcile_handler-ComesBack :
      (log : List Call)
      → (reconcile_handler sys ctx e log).0 ≢ panic
      → ComesBack e (experiment_controller sys ctx e log).0
  unfolding reconcile_handler experiment_controller
  reconcile_handler-ComesBack log h =
      let resolver = some ctx.edge_resolver in
      given (reconcile sys ctx.kube_client resolver ctx.config e log)
        ((reconcile-Ends sys ctx.kube_client resolver ctx.config e).run log) h
