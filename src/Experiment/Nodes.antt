-- ===== src/Experiment/Nodes.antt =====
-- Node chaos: one Job for each target node, and the status that reports them.
use ch_chaos.Base.{
  String, ◌≡◌, refl, true, Option, some, List, [], ◌∷◌, map, Result, ok, err, arith, done, settle,
  unwrap_or, none, false, format, decimal, length,
}
use ch_chaos.Types.{Phase}
use ch_chaos.Errors.{OperatorError, is_already_exists}
use ch_chaos.Objects.{Job}
use ch_chaos.Crd.{ChaosExperiment, ChaosExperimentStatus}
use ch_chaos.Experiment.{
  Call, KubeClient, System, ReconcilerConfig, exp_name, exp_namespace, target_namespace,
}
use mathlib.Core.Option
use ch_chaos.JobBuilder.{build_runner_job, make_job_name, pod_template}
use ch_chaos.Experiment.Guard.{job_node}
use ch_chaos.Experiment.Pending.{unless_exists, node_job, create_jobs, handle_pending_pod}

-- The Jobs of a list of nodes, in order: one Job each.
pub data JobsFor (build : String → Option Job) : List String → List Job → Type 0 where
  none_left : JobsFor build [] []
  one_more :
      {n : String} {j : Job} {ns : List String} {js : List Job}
      → build n ≡ some j
      → JobsFor build ns js
      → JobsFor build (n ∷ ns) (j ∷ js)

abbrev pub job_name : Job → String
job_name j = unwrap_or j.metadata.name ""

-- The log after one creation call for each Job, in order.
abbrev pub created : String → List Job → List Call → List Call
created ns [] log = log
created ns (j ∷ js) log = created ns js (Call.create_job ns j ∷ log)

-- A creation that the reconciler takes for done: the Job is new, or is there already.
abbrev pub IsAccepted : Result OperatorError (Unit {0}) → Type 0
IsAccepted (ok _) = Unit
IsAccepted (err e) = is_already_exists e ≡ true

pub unless_exists-done :
    (r : Result OperatorError (Unit {0})) (log : List Call)
    → IsAccepted r
    → unless_exists r log ≡ (done tt, log)
unless_exists-done (ok _) log h = refl
unless_exists-done (err x) log h = rw h

-- Each Job is bound to the node at its place in the list.
abbrev pub Placed : List String → List Job → Type 0
Placed [] [] = Unit
Placed (n ∷ ns) (j ∷ js) = (job_node j ≡ some n) × Placed ns js
Placed _ _ = ⊥

pub node_job-node :
    {DateTime : Type 0} (sys : System DateTime) (kube : KubeClient) (e : ChaosExperiment)
    (eid : String) (config : ReconcilerConfig) (node : String) (job : Job)
    → node_job sys kube e eid config node ≡ some job
    → job_node job ≡ some node
unfolding build_runner_job pod_template
node_job-node sys kube e eid config node job h = mapped (make_job_name eid node) _ (λ s. refl) h
  where
    mapped :
        (o : Option String) (f : String → Job)
        → ((s : String) → job_node (f s) ≡ some node)
        → Option.map f o ≡ some job
        → job_node job ≡ some node
    mapped none f h k = cc k
    mapped (some s) f h k = cc (h s, k)

module _ {DateTime : Type 0} (sys : System DateTime) (kube : KubeClient) (e : ChaosExperiment)
    (eid : String) (config : ReconcilerConfig)
    (accepted : (ns : String) (job : Job) (log : List Call)
      → IsAccepted (kube.create_job ns job log)) where
  create_jobs_lem :
      {nodes : List String} {jobs : List Job} (log : List Call)
      → JobsFor (node_job sys kube e eid config) nodes jobs
      → create_jobs sys kube e eid config nodes log
        ≡ (done (map job_name jobs), created (exp_namespace e) jobs log)
  unfolding create_jobs
  create_jobs_lem log none_left = refl
  create_jobs_lem log (one_more {n} {j} {ns} {js} h rest) =
      let r = kube.create_job (exp_namespace e) j log in
      let l = Call.create_job (exp_namespace e) j ∷ log in
      ground (
        arith,
        h,
        unless_exists-done r l (accepted (exp_namespace e) j log),
        create_jobs_lem l rest,
      )

  jobs-Placed :
      {nodes : List String} {jobs : List Job}
      → JobsFor (node_job sys kube e eid config) nodes jobs
      → Placed nodes jobs
  jobs-Placed none_left = tt
  jobs-Placed (one_more h rest) = (node_job-node sys kube e eid config _ _ h, jobs-Placed rest)

  -- The log when the Jobs are created and the clock is read.
  abbrev pub launched : List Job → List Call → List Call
  launched jobs log =
      Call.read_clock
      ∷ created (exp_namespace e) jobs (Call.list_target_nodes (target_namespace e) ∷ log)

  -- the status of a started experiment, written out
  abbrev pub launch_status : List String → List Job → List Call → ChaosExperimentStatus
  launch_status nodes jobs log =
      let listed = Call.list_target_nodes (target_namespace e) ∷ log in
      record {
        phase = Phase.running;
        message = some (
            format (
              "Running on "
              ∷ decimal (length nodes)
              ∷ " nodes for "
              ∷ decimal e.spec.duration
              ∷ "s"
              ∷ []));
        started_at = some (sys.to_rfc3339 (sys.now (created (exp_namespace e) jobs listed)));
        completed_at = none;
        experiment_id = some eid;
        runner_jobs = map job_name jobs;
        cleanup_done = false;
      }

  -- Where the client lists at least one target node, a Job can be built and named for each and every creation is accepted
  -- (as new, or as already there), a pending node experiment makes exactly these calls: it lists the
  -- nodes, creates one Job for each node in their order, bound to it, reads the clock, and writes one status, which
  -- is Running, with the number of nodes and the duration, started at that time, with the
  -- experiment's id and the names of just these Jobs. It
  -- ends as that status write ends.
  pub handle_pending_pod-launches :
      (node : String) (nodes : List String) (jobs : List Job) (log : List Call)
      → kube.list_target_nodes (target_namespace e) log ≡ ok (node ∷ nodes)
      → JobsFor (node_job sys kube e eid config) (node ∷ nodes) jobs
      → let status = launch_status (node ∷ nodes) jobs log in
        Placed (node ∷ nodes) jobs
        × (handle_pending_pod sys kube e eid config log ≡ (
          settle (
              kube.patch_experiment_status
                (exp_namespace e)
                (exp_name e)
                status
                (launched jobs log)),
          Call.patch_experiment_status (exp_namespace e) (exp_name e) status ∷ launched jobs log,
        ))
  unfolding handle_pending_pod
  handle_pending_pod-launches node nodes jobs log listed built = (
    jobs-Placed built,
    ground (arith, create_jobs_lem (Call.list_target_nodes (target_namespace e) ∷ log) built),
  )
