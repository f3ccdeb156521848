-- ===== src/Experiment/Order/Steps.antt =====
-- The parts of the handlers (src/operator/reconciler.rs) that do not write to the experiment.
use ch_chaos.Base.{
  ℕ, String, Option, none, some, List, [], ◌∷◌, refl, Result, ok, err, pure, or_panic, attempt,
  unwrap_or,
}
use ch_chaos.Errors.{OperatorError, is_already_exists, is_not_found}
use ch_chaos.Types.{EdgeTarget}
use ch_chaos.Crd.{ChaosExperiment}
use ch_chaos.Trace.{
  Emits, >>=-Emits, if-Emits, pure-Emits, raise-Emits, request-Emits, attempt-Emits, same, more,
}
use ch_chaos.Experiment.{
  KubeClient, EdgeResolver, System, ReconcilerConfig, VirtualServiceInfo, exp_namespace,
}
use ch_chaos.Experiment.Kube
use ch_chaos.Experiment.Handlers.{
  is_ours, unless_found, delete_jobs, delete_ours, cleanup_virtual_services, elapsed_since,
}
use ch_chaos.Experiment.Pending.{unless_exists, choose_id, create_jobs, node_job, resolve}
use ch_chaos.Experiment.Order.{IsQuiet}

module _ (kube : KubeClient) where
  pub delete_jobs-IsQuiet :
      (ns : String) (names : List String) → Emits IsQuiet (delete_jobs kube ns names)
  unfolding delete_jobs
  delete_jobs-IsQuiet ns [] = pure-Emits IsQuiet tt
  delete_jobs-IsQuiet ns (n ∷ names) =
      >>=-Emits IsQuiet (attempt (Kube.delete_job kube ns n)) _
        (attempt-Emits IsQuiet _ (request-Emits IsQuiet _ _ refl))
        (λ _. delete_jobs-IsQuiet ns names)

  unless_found-IsQuiet : (r : Result OperatorError (Unit {0})) → Emits IsQuiet (unless_found r)
  unless_found-IsQuiet (ok _) = pure-Emits IsQuiet tt
  unless_found-IsQuiet (err x) =
      if-Emits IsQuiet (is_not_found x) _ _ (λ _. pure-Emits IsQuiet tt)
        (λ _. raise-Emits IsQuiet x)

  delete_ours-IsQuiet :
      (ns name : String) (vss : List VirtualServiceInfo)
      → Emits IsQuiet (delete_ours kube ns name vss)
  unfolding delete_ours
  delete_ours-IsQuiet ns name [] = pure-Emits IsQuiet tt
  delete_ours-IsQuiet ns name (vs ∷ vss) =
      if-Emits IsQuiet (is_ours name vs) _ _
        (λ _.
          >>=-Emits IsQuiet (attempt (Kube.delete_virtual_service kube ns vs.name)) _
            (attempt-Emits IsQuiet _ (request-Emits IsQuiet _ _ refl))
            λ r.
              >>=-Emits IsQuiet _ _ (unless_found-IsQuiet r) (λ _. delete_ours-IsQuiet ns name vss))
        (λ _. delete_ours-IsQuiet ns name vss)

  pub cleanup-IsQuiet : (ns name : String) → Emits IsQuiet (cleanup_virtual_services kube ns name)
  unfolding cleanup_virtual_services
  cleanup-IsQuiet ns name =
      >>=-Emits IsQuiet (Kube.list_virtual_services_for_host kube ns "") _
        (request-Emits IsQuiet _ _ refl) (delete_ours-IsQuiet ns name)

pub unless_exists-IsQuiet : (r : Result OperatorError (Unit {0})) → Emits IsQuiet (unless_exists r)
unless_exists-IsQuiet (ok _) = pure-Emits IsQuiet tt
unless_exists-IsQuiet (err x) =
    if-Emits IsQuiet (is_already_exists x) _ _ (λ _. pure-Emits IsQuiet tt)
      (λ _. raise-Emits IsQuiet x)

module _ {DateTime : Type 0} (sys : System DateTime) where
  pub choose_id-IsQuiet : (a b : Option String) → Emits IsQuiet (choose_id sys a b)
  choose_id-IsQuiet (some x) b = pure-Emits IsQuiet x
  choose_id-IsQuiet none (some x) = pure-Emits IsQuiet x
  choose_id-IsQuiet none none = record { run = λ log. more refl same }

  pub elapsed-IsQuiet : (o : Option DateTime) (n : ℕ) → Emits IsQuiet (elapsed_since sys o n)
  elapsed-IsQuiet none n = pure-Emits IsQuiet _
  elapsed-IsQuiet (some start) n = record { run = λ log. more refl same }

  module _ (kube : KubeClient) (e : ChaosExperiment) where
    pub create_jobs-IsQuiet :
        (eid : String) (config : ReconcilerConfig) (nodes : List String)
        → Emits IsQuiet (create_jobs sys kube e eid config nodes)
    unfolding create_jobs
    create_jobs-IsQuiet eid config [] = pure-Emits IsQuiet []
    create_jobs-IsQuiet eid config (node ∷ nodes) =
        >>=-Emits IsQuiet (or_panic (node_job sys kube e eid config node)) _
          (record { run = λ log. same })
          λ job.
            >>=-Emits IsQuiet (attempt (Kube.create_job kube (exp_namespace e) job)) _
              (attempt-Emits IsQuiet _ (request-Emits IsQuiet _ _ refl))
              λ r. >>=-Emits IsQuiet (unless_exists r) _ (unless_exists-IsQuiet r) λ _.
                >>=-Emits IsQuiet (create_jobs sys kube e eid config nodes)
                  (λ names. pure (unwrap_or job.metadata.name "" ∷ names))
                  (create_jobs-IsQuiet eid config nodes) (λ names. pure-Emits IsQuiet _)

    pub resolve-IsQuiet :
        {F : Type 0} (o : Option (EdgeResolver F)) (target : EdgeTarget) (ns : String)
        → Emits IsQuiet (resolve sys kube o target ns)
    resolve-IsQuiet none target ns = pure-Emits IsQuiet (ok tt)
    resolve-IsQuiet (some r) target ns = attempt-Emits IsQuiet _ (
        >>=-Emits IsQuiet (Kube.resolve_edge r target.source_service target.destination_service ns)
          (λ _. pure tt) (request-Emits IsQuiet _ _ refl) (λ _. pure-Emits IsQuiet tt))
