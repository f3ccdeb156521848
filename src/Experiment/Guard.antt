-- ===== src/Experiment/Guard.antt =====
-- Which calls a reconcile may make, and when: the conditions under which chaos is injected, removed
-- and reported.
pub mod Cleanup
pub mod Running
pub mod Start
pub mod Edge
pub mod Inject
pub mod All
use ch_chaos.Base.{
  ℕ, String, ◌≡◌, refl, sym, subst, ◌⊎◌, inl, inr, true, false, Option, none, some, List, [], ◌∷◌,
  Result, ok, err, Any, attempt, and_then, is_empty,
}
use ch_chaos.Types.{Phase, is_edge_chaos, is_terminal, EdgeTarget}
use ch_chaos.Errors.{OperatorError, is_not_found}
use ch_chaos.Objects.{Job, Labels}
use ch_chaos.Crd.{ChaosExperiment, ChaosExperimentStatus}
use ch_chaos.Trace.{
  Emits, >>=-Emits, request->>=, if-Emits, pure-Emits, raise-Emits, request-Emits, attempt-Emits,
  same, more,
}
use ch_chaos.Experiment.{
  Call, KubeClient, System, VirtualServiceInfo, needs_finalizer, is_being_deleted, exp_name,
  exp_namespace, target_namespace, validate_experiment, current_status, edge_of, any_job_failed,
  all_jobs_succeeded,
}
use ch_chaos.Experiment.Kube
use ch_chaos.Experiment.Kube.{Op}
use ch_chaos.Experiment.Pending.{has_conflict}
use ch_chaos.Experiment.Handlers.{
  failed_status, is_ours, unless_found, delete_jobs, delete_ours, cleanup_virtual_services,
  handle_deletion, handle_terminal, complete, complete_if_elapsed, elapsed_since, mark_clean,
  mark_if_clean, handle_running, handle_running_edge, handle_running_pod, is_duration_elapsed,
}

-- The status writes that are legal, from one status to the next: a pending experiment is started or
-- refused, a running one ends, with all else kept, and a finished one is marked clean, with all else
-- kept.
pub data IsLegal (s t : ChaosExperimentStatus) : Type 0 where
  started : s.phase ≡ Phase.pending → t.phase ≡ Phase.running → t.cleanup_done ≡ false → IsLegal s t
  refused : (message : String) → s.phase ≡ Phase.pending → t ≡ failed_status message → IsLegal s t
  ended :
      (phase : Phase) (message time : String)
      → s.phase ≡ Phase.running
      → is_terminal phase ≡ true
      → t ≡ record s { phase = phase; message = some message; completed_at = some time }
      → IsLegal s t
  cleaned :
      is_terminal s.phase ≡ true
      → s.cleanup_done ≡ false
      → t ≡ record s { cleanup_done = true }
      → IsLegal s t

-- Chaos is injected for a valid, pending experiment that holds the finalizer and is not being deleted.
pub record MayInject (e : ChaosExperiment) : Type 0 where
  pub protected : needs_finalizer e ≡ false
  pub alive : is_being_deleted e ≡ false
  pub pending : (current_status e).phase ≡ Phase.pending
  pub valid : validate_experiment e.spec ≡ ok tt

-- The client listed a VirtualService of this name with the operator's labels for this experiment.
abbrev pub IsListed : KubeClient → ChaosExperiment → String → Type 0
IsListed kube e name =
    (log : List Call) × (vss : List VirtualServiceInfo) × (kube.list_virtual_services_for_host
        (target_namespace e) "" log
      ≡ ok vss)
    × Any (λ vs. (vs.name ≡ name) × (is_ours (exp_name e) vs ≡ true)) vss

-- the node that a Job's pod is bound to
abbrev pub job_node : Job → Option String
job_node job = and_then job.spec (λ s. and_then s.template.spec (λ p. p.node_name))

-- The Job runs on one of the target nodes that the client listed.
abbrev pub IsPlaced : KubeClient → ChaosExperiment → Job → Type 0
IsPlaced kube e job =
    (log : List Call) × (nodes : List String) × (kube.list_target_nodes (target_namespace e) log
      ≡ ok nodes)
    × Any (λ n. job_node job ≡ some n) nodes

-- The client gave a selector for the source service of the experiment's edge, and listed no
-- VirtualService but the operator's own.
pub record IsClear (kube : KubeClient) (e : ChaosExperiment) : Type 0 where
  pub target : EdgeTarget
  pub edge : edge_of e.spec ≡ some target
  pub labels : Labels
  pub looked_up : List Call
  pub selected :
      (kube.get_service_selector (target_namespace e) target.source_service looked_up ≡ ok labels)
      × (is_empty labels ≡ false)
  pub host : String
  pub listed : List Call
  pub services : List VirtualServiceInfo
  pub found :
      (kube.list_virtual_services_for_host (target_namespace e) host listed ≡ ok services)
      × (has_conflict services ≡ false)

-- The experiment is over: it is being deleted, or has reached a final phase.
abbrev pub IsOver : ChaosExperiment → Type 0
IsOver e = (is_being_deleted e ≡ true) ⊎ (is_terminal (current_status e).phase ≡ true)

abbrev pub Allowed : KubeClient → ChaosExperiment → Call → Type 0
Allowed kube e (Call.create_job ns job) =
    MayInject e
    × (is_edge_chaos e.spec.scenario ≡ false)
    × (ns ≡ exp_namespace e)
    × IsPlaced kube e job
Allowed kube e (Call.create_virtual_service ns vs) =
    MayInject e
    × (is_edge_chaos e.spec.scenario ≡ true)
    × (ns ≡ target_namespace e)
    × IsClear kube e
Allowed kube e (Call.delete_job ns name) =
    IsOver e × (ns ≡ exp_namespace e) × Any (λ j. j ≡ name) (current_status e).runner_jobs
Allowed kube e (Call.delete_virtual_service ns name) =
    IsOver e × (ns ≡ target_namespace e) × IsListed kube e name
Allowed kube e (Call.patch_experiment_status ns name status) =
    (needs_finalizer e ≡ false)
    × (is_being_deleted e ≡ false)
    × (ns ≡ exp_namespace e)
    × (name ≡ exp_name e)
    × IsLegal (current_status e) status
Allowed kube e (Call.add_finalizer ns name) =
    (needs_finalizer e ≡ true) × (ns ≡ exp_namespace e) × (name ≡ exp_name e)
Allowed kube e (Call.remove_finalizer ns name) =
    (is_being_deleted e ≡ true) × (ns ≡ exp_namespace e) × (name ≡ exp_name e)
Allowed kube e _ = Unit
