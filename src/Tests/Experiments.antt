-- ===== src/Tests/Experiments.antt =====
-- The reconciler of experiments on concrete inputs.
use ch_chaos.Base.{
  decimal, ◌≡◌, ◌≢◌, refl, ◌↔◌, ◌⊎◌, true, false, String, none, List, [], ◌∷◌, ok, done, All,
  unwrap_or,
}
use ch_chaos.Objects.{Job}
use ch_chaos.Istio.{is_chaos_managed}
use ch_chaos.Trace.{Emits}
use ch_chaos.JobBuilder.{build_runner_job, make_job_name, default_meta}
use ch_chaos.Experiment.{
  Call, exp_name, exp_namespace, target_namespace, current_status, VirtualServiceInfo,
  validate_experiment,
}
use ch_chaos.Experiment.Pending.{node_job, handle_pending_pod}
use ch_chaos.Experiment.Handlers.{
  cleanup_edges, is_ours, delete_ours, cleanup_virtual_services, handle_deletion, handle_terminal,
}
use ch_chaos.Experiment.Reconcile.{reconcile}
use ch_chaos.Experiment.Guard.{Allowed}
use ch_chaos.Experiment.Guard.All.{reconcile-Allowed}
use ch_chaos.Experiment.Nodes.{Placed, JobsFor, none_left, one_more, handle_pending_pod-launches}
use ch_chaos.Experiment.Removal.{
  Called, cleanup_complete, handle_deletion-releases, handle_terminal-marks,
}
use ch_chaos.Base.{parse_u64, arith, some}
use ch_chaos.Types.{Phase}
use ch_chaos.Crd.{ChaosExperiment, default_experiment_status}
use ch_chaos.Experiment.{requeue, needs_finalizer, is_being_deleted}
use ch_chaos.Experiment.Progress.{reconcile-ends}
use ch_chaos.Experiment.Validity.{IsRunnable, validate_experiment_iff}
use ch_chaos.Tests.Model.{system, cluster, resolver, config, killer, latency, latency_spec}

reconcile-Allowed_example :
    Emits (Allowed cluster killer) (reconcile system cluster resolver config killer)
reconcile-Allowed_example = reconcile-Allowed system cluster resolver config killer

-- the Job of a node
abbrev pub job_of : String → Job
job_of node =
    unwrap_or (node_job system cluster killer "12345678-abcd" config node)
      (record { metadata = default_meta; spec = none; status = none })

jobs_built :
    JobsFor
      (node_job system cluster killer "12345678-abcd" config)
      ("node-a" ∷ "node-b" ∷ [])
      (job_of "node-a" ∷ job_of "node-b" ∷ [])
unfolding build_runner_job make_job_name
jobs_built = one_more refl (one_more refl none_left)

handle_pending_pod-launches_example :
    let jobs = job_of "node-a" ∷ job_of "node-b" ∷ [] in
    Placed ("node-a" ∷ "node-b" ∷ []) jobs
    × (handle_pending_pod system cluster killer "12345678-abcd" config [] ≡ (
      done tt,
      Call.patch_experiment_status "chaos" "killer" (record default_experiment_status {
        phase = Phase.running;
        message = some "Running on 2 nodes for 60s";
        started_at = some "100";
        experiment_id = some "12345678-abcd";
        runner_jobs = "chaos-runner-12345678-node-a" ∷ "chaos-runner-12345678-node-b" ∷ [];
      })
          ∷ Call.read_clock
          ∷ Call.create_job "chaos" (job_of "node-b")
          ∷ Call.create_job "chaos" (job_of "node-a")
          ∷ Call.list_target_nodes "shop"
          ∷ [],
    ))
unfolding exp_name exp_namespace target_namespace decimal build_runner_job make_job_name
handle_pending_pod-launches_example =
    handle_pending_pod-launches system cluster killer "12345678-abcd" config (λ _ _ _. tt) "node-a"
      ("node-b" ∷ []) (job_of "node-a" ∷ job_of "node-b" ∷ []) [] refl jobs_built

-- the cleanup of the experiment `latency`: it lists the VirtualServices, and deletes its own
abbrev cleaned : List Call
cleaned =
    Call.delete_virtual_service "shop" "chaos-edge-12345678"
    ∷ Call.list_virtual_services_for_host "shop" ""
    ∷ []

cleanup_latency : cleanup_virtual_services cluster "shop" "latency" [] ≡ (done tt, cleaned)
unfolding cleanup_virtual_services delete_ours is_ours is_chaos_managed
cleanup_latency = refl

cleanup_complete_example :
    (vss : List VirtualServiceInfo) × (cluster.list_virtual_services_for_host "shop" "" [] ≡ ok vss)
    × All
        (λ vs.
          is_ours "latency" vs ≡ true → Called (Call.delete_virtual_service "shop" vs.name) cleaned)
        vss
cleanup_complete_example = cleanup_complete cluster "shop" "latency" [] cleaned cleanup_latency

handle_deletion-releases_example :
    handle_deletion cluster latency []
    ≡ (done tt, Call.remove_finalizer "chaos" "latency" ∷ cleaned)
unfolding exp_name exp_namespace target_namespace current_status cleanup_virtual_services
    delete_ours is_ours is_chaos_managed
handle_deletion-releases_example = handle_deletion-releases cluster latency []

handle_terminal-marks_example :
    let clean = record (current_status latency) { cleanup_done = true } in
    ((true ≡ false) ⊎ ((cleanup_edges cluster latency []).0 ≡ done tt)
      → handle_terminal cluster latency []
        ≡ (done tt, Call.patch_experiment_status "chaos" "latency" clean ∷ cleaned))
    × ((true ≡ true) × ((cleanup_edges cluster latency []).0 ≢ done tt)
        → handle_terminal cluster latency [] ≡ (done tt, cleaned))
unfolding exp_name exp_namespace target_namespace current_status cleanup_virtual_services
    delete_ours is_ours is_chaos_managed
handle_terminal-marks_example = handle_terminal-marks cluster latency [] refl

validate_experiment_iff_example :
    (validate_experiment latency_spec ≡ ok tt) ↔ IsRunnable latency_spec
validate_experiment_iff_example = validate_experiment_iff latency_spec

-- the edge experiment while it runs, started at second 50
abbrev going : ChaosExperiment
going = record latency {
  status =
      some (record default_experiment_status { phase = Phase.running; started_at = some "50" });
}

reconcile-ends_example : reconcile system cluster resolver config going [] ≡ (
  done (requeue 5),
  Call.patch_experiment_status "chaos" "latency" (record default_experiment_status {
    phase = Phase.succeeded;
    message = some "Edge chaos duration elapsed";
    started_at = some "50";
    completed_at = some "100";
  })
      ∷ Call.read_clock
      ∷ Call.read_clock
      ∷ [],
)
unfolding exp_name exp_namespace current_status decimal parse_u64 needs_finalizer is_being_deleted
reconcile-ends_example =
    reconcile-ends system cluster resolver config going refl refl [] "50" 50 50 refl refl refl refl
      refl (omega arith) refl
