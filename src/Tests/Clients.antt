-- ===== src/Tests/Clients.antt =====
-- The client of the API server and the controllers on concrete inputs.
use ch_chaos.Base.{ℕ, ◌≡◌, refl, none, some, List, [], ◌∷◌, ok, done, String, Any, ◌↔◌, Outcome}
use ch_chaos.Types.{Phase}
use ch_chaos.Errors.{OperatorError}
use ch_chaos.ImpactMap.{build_completed_status}
use ch_chaos.Client.Reports.{patch_impact_map_status-merges}
use ch_chaos.Client.Methods.{patch_impact_map_status}
use ch_chaos.Json.{find_member, num, Members, obj, str, arr, nil, cons, end, member, object}
use ch_chaos.JobBuilder.{default_meta, build_runner_job, make_job_name}
use ch_chaos.Crd.{ChaosExperiment, ChaosExperimentStatus, default_experiment_status}
use ch_chaos.Trace.{Emits}
use ch_chaos.Experiment.Reconcile.{reconcile}
use ch_chaos.Experiment.{
  Call, current_status, needs_finalizer, is_being_deleted, validate_experiment, requeue_duration,
}
use ch_chaos.Experiment.Pending.{handle_pending, handle_pending_pod, create_jobs}
use ch_chaos.Client.{Pod, Request, Api, Serde}
use ch_chaos.Client.Methods.{
  list_target_nodes, create_job, node_of, target_nodes, patch_experiment_status, add_finalizer,
  remove_finalizer,
}
use ch_chaos.Client.Nodes.{IsAscending, target_nodes_lem}
use ch_chaos.Client.Patches.{Represents, Implements, writes-Implements}
use ch_chaos.Client.Real.{Http}
use ch_chaos.Controller.{
  experiment_controller, OperatorContext, operator_context, Action, requeue, reconcile_handler,
}
use ch_chaos.Controller.Retries.{ComesBack, reconcile_handler-ComesBack}
use ch_chaos.Controller.Placement.{Placed, reconcile_handler-Placed}
use ch_chaos.Tests.Model.{float, system, killer}
use ch_chaos.Tests.Merge.{merge, merge-IsMergePatch}

abbrev pub pod : String → Pod
pod node = record {
  metadata = default_meta;
  spec = some (record {
    containers = [];
    node_name = some node;
    restart_policy = none;
    service_account_name = none;
  });
}

abbrev pods : List Pod
pods =
    pod "node-b"
    ∷ record { metadata = default_meta; spec = none }
    ∷ pod "node-a"
    ∷ pod "node-b"
    ∷ []

target_nodes_lem_example :
    IsAscending (target_nodes pods)
    × ((n : String) → Any (λ s. s ≡ n) (target_nodes pods) ↔ Any (λ p. node_of p ≡ some n) pods)
target_nodes_lem_example = target_nodes_lem pods

-- an API server that takes every request
abbrev pub server : Api
server = record {
  create_job = λ _ _ _. ok tt;
  list_jobs = λ _ _ _. ok [];
  delete_job = λ _ _ _. ok tt;
  list_pods = λ _ _. ok pods;
  get_service = λ _ _ _. ok (record { metadata = default_meta; spec = none });
  create_virtual_service = λ _ _ _. ok tt;
  list_virtual_services = λ _ _. ok [];
  delete_virtual_service = λ _ _ _. ok tt;
  get_experiment = λ _ _ _. ok killer;
  patch_experiment = λ _ _ _ _. ok tt;
  patch_experiment_status = λ _ _ _ _. ok tt;
  patch_analysis_status = λ _ _ _ _. ok tt;
  patch_impact_map_status = λ _ _ _ _. ok tt;
}

abbrev pub serde : Serde ℕ
serde = record {
  number = num;
  from_value = λ v. ok (record { metadata = default_meta; generate_name = none; content = v });
}

-- an experiment that another controller holds as well
abbrev shared : ChaosExperiment
shared = record killer {
  metadata = record killer.metadata { finalizers = some ("backup.io/hold" ∷ []) };
}

abbrev stored_meta : Members
stored_meta =
    member "name" (str "killer") (member "finalizers" (arr (cons (str "backup.io/hold") nil)) end)

abbrev stored : Members
stored = member "metadata" (obj stored_meta) (member "spec" (object []) end)

shared_stored : Represents stored shared
shared_stored = record { meta = stored_meta; metadata = refl; finalizers = refl; status = refl }

abbrev running : ChaosExperimentStatus
running = record default_experiment_status {
  phase = Phase.running;
  experiment_id = some "12345678-abcd";
  runner_jobs = "job-a" ∷ [];
}

writes-Implements_example :
    Implements server serde merge merge-IsMergePatch "chaos" "killer" [] stored shared shared_stored
      (Request.patch_experiment_status "chaos" "killer")
      (patch_experiment_status server serde "chaos" "killer" running)
      (Call.patch_experiment_status "chaos" "killer" running)
    × Implements server serde merge merge-IsMergePatch "chaos" "killer" [] stored shared
        shared_stored
        (Request.patch_experiment "chaos" "killer")
        (add_finalizer server serde "chaos" "killer")
        (Call.add_finalizer "chaos" "killer")
    × Implements server serde merge merge-IsMergePatch "chaos" "killer" [] stored shared
        shared_stored
        (Request.patch_experiment "chaos" "killer")
        (remove_finalizer server serde "chaos" "killer")
        (Call.remove_finalizer "chaos" "killer")
writes-Implements_example =
    writes-Implements server serde merge merge-IsMergePatch "chaos" "killer" [] stored shared
      shared_stored running

abbrev http : Http server serde float Call
http = λ _ _ _. ok (record { status = "success"; result = [] })

abbrev context : OperatorContext ℕ
context = operator_context server serde float http [] "http://prometheus:9090/"

abbrev ran : Outcome OperatorError Action
ran = (reconcile_handler system context killer []).0

handled : ran ≡ done (requeue 5)
unfolding reconcile_handler operator_context reconcile needs_finalizer is_being_deleted
    current_status handle_pending validate_experiment handle_pending_pod list_target_nodes
    target_nodes create_jobs build_runner_job make_job_name create_job patch_experiment_status
    requeue_duration
handled = refl

reconcile_handler-ComesBack_example :
    ComesBack killer (experiment_controller system context killer []).0
reconcile_handler-ComesBack_example =
    reconcile_handler-ComesBack system context killer [] (λ h. cc (handled, h))

reconcile_handler-Placed_example :
    Emits (Placed server killer) (reconcile_handler system context killer)
reconcile_handler-Placed_example =
    reconcile_handler-Placed server serde float system http [] "http://prometheus:9090/" killer

-- an impact map that was written while its experiment was running
abbrev waiting_map : Members
waiting_map =
    member "phase" (str "Pending") (member "message" (str "Waiting for experiment to complete") end)

abbrev stored_map : Members
stored_map = member "status" (obj waiting_map) end

-- Once it is completed it still says that it waits.
patch_impact_map_status-merges_example :
    (p : Members) × (ms : Members) × ((patch_impact_map_status server serde "chaos" "mesh"
        (build_completed_status 1 [])
        []).1
      ≡ Request.patch_impact_map_status "chaos" "mesh" (obj p) ∷ [])
    × (find_member (merge stored_map p) "status" ≡ some (obj ms))
    × (find_member ms "phase" ≡ some (str "Completed"))
    × (find_member ms "message" ≡ some (str "Waiting for experiment to complete"))
    × (find_member ms "affectedServices" ≡ none)
unfolding build_completed_status
patch_impact_map_status-merges_example =
    patch_impact_map_status-merges server serde merge merge-IsMergePatch "chaos" "mesh" []
      stored_map waiting_map refl (build_completed_status 1 [])
