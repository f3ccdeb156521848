-- ===== src/Tests/Lifecycles.antt =====
-- An experiment's life, and its status as JSON, on concrete inputs.
use ch_chaos.Experiment.Handlers.{handle_running}
use ch_chaos.Experiment.Progress.Jobs.{handle_running-Verdict, job_failed}
use ch_chaos.Base.{
  inl, inr, arith, ℤ, pos, done, decimal, Option, ℕ, ◌≡◌, refl, true, false, Bool, none, some, [],
  ◌∷◌, ok, err, fail, str_eq, if◌then◌else◌,
}
use ch_chaos.Types.{Phase}
use ch_chaos.Errors.{OperatorError, api}
use ch_chaos.Objects.{Job}
use ch_chaos.Crd.{ChaosExperiment, ChaosExperimentStatus, default_experiment_status}
use ch_chaos.Crd.Encoding.{read_status, status_members}
use ch_chaos.Crd.Encoding.Reading.{read_status-status_members}
use ch_chaos.Experiment.{
  Call, KubeClient, any_job_failed, exp_name, current_status, exp_namespace, target_namespace,
}
use ch_chaos.Experiment.Guard.{job_node}
use ch_chaos.Experiment.Reconcile.{reconcile}
use ch_chaos.Experiment.Pending.{handle_pending_pod}
use ch_chaos.Experiment.Nodes.{none_left, one_more}
use ch_chaos.Experiment.Failure.{handle_pending_pod-fail}
use ch_chaos.Experiment.Order.{Concludes}
use ch_chaos.Experiment.Order.Ending.{reconcile-Concludes}
use ch_chaos.JobBuilder.{default_meta, build_runner_job, make_job_name, pod_template}
use ch_chaos.Lifecycle.{State, take_all, take_all-Applied, Step, reconciled, Reach, here, next}
use ch_chaos.Experiment.Advance.{under_way as idle_running}
use ch_chaos.Lifecycle.Evolution.{Evolves}
use ch_chaos.Lifecycle.Safety.{Inv, Reach-Inv, Reach-Evolves}
use ch_chaos.Tests.Model.{system, cluster, resolver, config, killer}
use ch_chaos.Tests.Experiments.{job_of}

reconcile-Concludes_example : Concludes (reconcile system cluster resolver config killer)
reconcile-Concludes_example = reconcile-Concludes system cluster killer resolver config

abbrev ended : ChaosExperimentStatus
ended = record default_experiment_status {
  phase = Phase.failed;
  message = some "Runner Job failed";
  experiment_id = some "12345678-abcd";
  runner_jobs = "job-a" ∷ "job-b" ∷ [];
  cleanup_done = true;
}

read_status-status_members_example : read_status (status_members ended) ≡ some ended
read_status-status_members_example = read_status-status_members ended

-- the experiment before the operator has seen it
abbrev start : State
start = record {
  object = record killer { metadata = record killer.metadata { finalizers = none } };
  history = [];
}

abbrev reconciled_once : State → State
reconciled_once s = take_all s (reconcile system cluster resolver config s.object []).1

once : (s : State) → Step ℕ ℕ s (reconciled_once s)
once s = reconciled system cluster resolver config (take_all-Applied s _)

-- The first reconcile adds the finalizer, the second starts the experiment.
abbrev started : State
started = reconciled_once (reconciled_once start)

lived : Reach ℕ ℕ start started
lived = next (next here (once start)) (once (reconciled_once start))

start-Inv : Inv start
unfolding current_status
start-Inv = record { consistent = λ h. cc h; held = λ h. absurd h }

Reach-Inv_example : Inv started
Reach-Inv_example = Reach-Inv start-Inv lived

Reach-Evolves_example : Evolves (current_status start.object) (current_status started.object)
Reach-Evolves_example = Reach-Evolves start-Inv lived

abbrev on_node_b : Job → Bool
on_node_b job = elim (job_node job) [ none ↦ false | some n ↦ str_eq n "node-b" ]

abbrev forbidden : OperatorError
forbidden = OperatorError.kube (api 403 "quota exceeded")

-- a cluster where no Job may be created on the second node
abbrev strict : KubeClient
strict = record cluster {
  create_job = λ ns job log. if on_node_b job then err forbidden else ok tt;
}

handle_pending_pod-fail_example :
    handle_pending_pod system strict killer "12345678-abcd" config [] ≡ (
      fail forbidden,
      Call.create_job "chaos" (job_of "node-b")
          ∷ Call.create_job "chaos" (job_of "node-a")
          ∷ Call.list_target_nodes "shop"
          ∷ [],
    )
unfolding exp_namespace target_namespace build_runner_job make_job_name pod_template
handle_pending_pod-fail_example =
    handle_pending_pod-fail system strict killer "12345678-abcd" config "node-b" []
      (job_of "node-b") forbidden refl refl {nodes = "node-a" ∷ []} {jobs = job_of "node-a" ∷ []} []
      refl (one_more refl none_left) (tt, tt) refl

-- two Jobs, of which one has failed
abbrev job_with : Option ℤ → Option ℤ → Job
job_with succeeded failed = record {
  metadata = default_meta;
  spec = none;
  status = some (record { succeeded = succeeded; failed = failed });
}

abbrev failing : KubeClient
failing = record cluster {
  list_jobs = λ _ _ _. ok (job_with (some (pos 1)) none ∷ job_with none (some (pos 1)) ∷ []);
}

abbrev under_way : ChaosExperiment
under_way = record killer {
  status = some (record default_experiment_status {
    phase = Phase.running;
    started_at = some "50";
    runner_jobs = "job-a" ∷ "job-b" ∷ [];
  });
}

handle_running-Verdict_example : handle_running system failing under_way [] ≡ (
  done tt,
  Call.patch_experiment_status "chaos" "killer" (record default_experiment_status {
    phase = Phase.failed;
    message = some "One or more runner jobs failed";
    started_at = some "50";
    completed_at = some "100";
    runner_jobs = "job-a" ∷ "job-b" ∷ [];
  })
      ∷ Call.read_clock
      ∷ Call.list_jobs "chaos" "chaos.io/experiment=killer"
      ∷ [],
)
unfolding exp_name exp_namespace current_status any_job_failed decimal
handle_running-Verdict_example =
    handle_running-Verdict system failing under_way
      (job_with (some (pos 1)) none ∷ job_with none (some (pos 1)) ∷ []) [] refl refl
      (job_failed (inr (inl (omega arith))))
