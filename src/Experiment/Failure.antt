-- ===== src/Experiment/Failure.antt =====
-- Node chaos where the creation of a Job fails (`handle_pending_pod` of src/operator/reconciler.rs).
use ch_chaos.Base.{
  String, ◌≡◌, refl, false, some, List, [], ◌∷◌, ◌++◌, ok, err, arith, fail, is_empty,
}
use ch_chaos.Errors.{OperatorError, is_already_exists}
use ch_chaos.Objects.{Job}
use ch_chaos.Crd.{ChaosExperiment}
use ch_chaos.Experiment.{
  Call, KubeClient, System, ReconcilerConfig, exp_namespace, target_namespace,
}
use ch_chaos.Experiment.Nodes.{
  JobsFor, none_left, one_more, created, IsAccepted, unless_exists-done,
}
use ch_chaos.Experiment.Pending.{unless_exists, node_job, create_jobs, handle_pending_pod}

-- The creations of the Jobs, one after the other, are accepted.
abbrev pub AllAccepted : KubeClient → String → List Job → List Call → Type 0
AllAccepted kube ns [] log = Unit
AllAccepted kube ns (j ∷ js) log =
    IsAccepted (kube.create_job ns j log) × AllAccepted kube ns js (Call.create_job ns j ∷ log)

module _ {DateTime : Type 0} (sys : System DateTime) (kube : KubeClient) (e : ChaosExperiment)
    (eid : String) (config : ReconcilerConfig) where
  unless_exists-fail :
      (x : OperatorError) (log : List Call)
      → is_already_exists x ≡ false
      → unless_exists (err x) log ≡ (fail x, log)
  unless_exists-fail x log h = rw h refl

  module _ (bad : String) (rest : List String) (j : Job) (x : OperatorError)
      (built : node_job sys kube e eid config bad ≡ some j)
      (serious : is_already_exists x ≡ false) where
    create_jobs-fail :
        {nodes : List String} {jobs : List Job} (log : List Call)
        → JobsFor (node_job sys kube e eid config) nodes jobs
        → AllAccepted kube (exp_namespace e) jobs log
        → kube.create_job (exp_namespace e) j (created (exp_namespace e) jobs log) ≡ err x
        → create_jobs sys kube e eid config (nodes ++ (bad ∷ rest)) log
          ≡ (fail x, Call.create_job (exp_namespace e) j ∷ created (exp_namespace e) jobs log)
    unfolding create_jobs
    create_jobs-fail log none_left tt refused = ground (
      arith,
      built,
      refused,
      unless_exists-fail x (Call.create_job (exp_namespace e) j ∷ log) serious,
    )
    create_jobs-fail log (one_more {j = i} {js} h more) (a, all) refused =
        let r = kube.create_job (exp_namespace e) i log in
        let l = Call.create_job (exp_namespace e) i ∷ log in
        ground (arith, h, unless_exists-done r l a, create_jobs-fail l more all refused)

    append_is_empty : (nodes : List String) → is_empty (nodes ++ (bad ∷ rest)) ≡ false
    append_is_empty [] = refl
    append_is_empty (n ∷ nodes) = refl

    -- Where the Jobs of the first nodes are accepted and the creation of the next one fails, for another
    -- reason than that it is there, the handler fails with that error: it makes no further call, so that
    -- no status is written and the experiment stays pending.
    pub handle_pending_pod-fail :
        {nodes : List String} {jobs : List Job} (log : List Call)
        → let listed = Call.list_target_nodes (target_namespace e) ∷ log in
          kube.list_target_nodes (target_namespace e) log ≡ ok (nodes ++ (bad ∷ rest))
          → JobsFor (node_job sys kube e eid config) nodes jobs
          → AllAccepted kube (exp_namespace e) jobs listed
          → kube.create_job (exp_namespace e) j (created (exp_namespace e) jobs listed) ≡ err x
          → handle_pending_pod sys kube e eid config log
            ≡ (fail x, Call.create_job (exp_namespace e) j ∷ created (exp_namespace e) jobs listed)
    unfolding handle_pending_pod
    handle_pending_pod-fail {nodes} log answered built_first all refused = ground (
      arith,
      answered,
      append_is_empty nodes,
      create_jobs-fail (Call.list_target_nodes (target_namespace e) ∷ log) built_first all refused,
    )
