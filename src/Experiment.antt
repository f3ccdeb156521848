-- ===== src/Experiment.antt =====
-- src/operator/reconciler.rs: the reconciler of ChaosExperiments. Here: the traits that it is given,
-- its plain helpers and its result. The handlers are in `Handlers`, the calls as actions in `Kube`.
pub mod Kube
pub mod Handlers
pub mod Pending
pub mod Reconcile
pub mod Guard
pub mod Nodes
pub mod Failure
pub mod Edge
pub mod Removal
pub mod Validity
pub mod Progress
pub mod Order
pub mod Advance
use ch_chaos.Base.{
  ℕ, String, Bool, true, false, not, ◌||◌, ◌&&◌, Option, none, some, List, [], ◌∷◌, Result, ok, err,
  ℤ, pos, ltb_ℤ, any, all, is_empty, unwrap_or, and_then, is_some, if◌then◌else◌, str_eq, ok_or,
  ◌==◌,
}
use ch_chaos.Types.{
  Phase, Target, EdgeTarget, EdgeInfo, is_edge_chaos, is_terminal, finalizer_name,
  requeue_running_secs, requeue_terminal_secs,
}
use ch_chaos.Errors.{ValidationError, invalid_duration, missing_edge_target, OperatorError}
use ch_chaos.Json.{Value}
use ch_chaos.Objects.{Labels, Job, JobStatus}
use ch_chaos.Crd.{
  ChaosExperiment, ChaosExperimentSpec, ChaosExperimentStatus, default_experiment_status,
}
use ch_chaos.JobBuilder.{JobBuilderConfig}

pub record VirtualServiceInfo : Type 0 where
  pub name : String
  pub labels : Labels

-- What a reconcile does to the world: a call of the `KubeClient`, of the `EdgeResolver`, a read of
-- the clock or of the random generator.
pub data Call : Type 0 where
  create_job : String → Job → Call
  list_jobs delete_job : String → String → Call
  list_target_nodes : String → Call
  get_service_selector : String → String → Call
  create_virtual_service : String → Value → Call
  list_virtual_services_for_host delete_virtual_service : String → String → Call
  patch_experiment_status : String → String → ChaosExperimentStatus → Call
  add_finalizer remove_finalizer : String → String → Call
  resolve_edge : String → String → String → Call
  read_clock new_uuid : Call

abbrev pub Answer : Type 0 → Type 0
Answer A = List Call → Result OperatorError A

-- `trait KubeClient`. A client answers by all the calls made before, so that no assumption is made
-- on how the cluster behaves.
pub record KubeClient : Type 0 where
  pub create_job : String → Job → Answer (Unit {0})
  pub list_jobs : String → String → Answer (List Job)
  pub delete_job : String → String → Answer (Unit {0})
  pub list_target_nodes : String → Answer (List String)
  pub get_service_selector : String → String → Answer Labels
  pub create_virtual_service : String → Value → Answer (Unit {0})
  pub list_virtual_services_for_host : String → String → Answer (List VirtualServiceInfo)
  pub delete_virtual_service : String → String → Answer (Unit {0})
  pub patch_experiment_status : String → String → ChaosExperimentStatus → Answer (Unit {0})
  pub add_finalizer : String → String → Answer (Unit {0})
  pub remove_finalizer : String → String → Answer (Unit {0})

-- `trait EdgeResolver`
pub record EdgeResolver (F : Type 0) : Type 0 where
  pub resolve_edge : String → String → String → Answer (EdgeInfo F)

-- The crates behind the reconciler: `chrono` (`Utc::now`, `parse_from_rfc3339`, `to_rfc3339`, and
-- `now.signed_duration_since(start).num_seconds()` as `seconds_since start now`), `uuid`, and the
-- text of a JSON value.
pub record System (DateTime : Type 0) : Type 0 where
  pub now : List Call → DateTime
  pub parse_from_rfc3339 : String → Option DateTime
  pub to_rfc3339 : DateTime → String
  pub seconds_since : DateTime → DateTime → ℤ
  pub new_v4 : List Call → String
  pub json_text : Value → String

pub record ReconcilerConfig : Type 0 where
  pub job_builder : JobBuilderConfig

-- A `Duration` is its whole seconds.
pub data ReconcileResult : Type 0 where
  requeue : ℕ → ReconcileResult
  done : ReconcileResult

abbrev lacks : String → Option (List String) → Bool
lacks f none = true
lacks f (some names) = not (any (λ n. str_eq n f) names)

unfoldable pub needs_finalizer : ChaosExperiment → Bool
needs_finalizer experiment = lacks finalizer_name experiment.metadata.finalizers

unfoldable pub is_being_deleted : ChaosExperiment → Bool
is_being_deleted experiment = is_some experiment.metadata.deletion_timestamp

unfoldable pub exp_name : ChaosExperiment → String
exp_name experiment = unwrap_or experiment.metadata.name "unknown"

unfoldable pub exp_namespace : ChaosExperiment → String
exp_namespace experiment = unwrap_or experiment.metadata.namespace "default"

unfoldable pub target_namespace : ChaosExperiment → String
target_namespace experiment =
    unwrap_or experiment.spec.target_namespace (unwrap_or experiment.metadata.namespace "default")

unfoldable pub requeue_duration : Phase → ℕ
requeue_duration phase = if is_terminal phase then requeue_terminal_secs else requeue_running_secs

-- `spec.target.as_ref().and_then(|t| t.edge.as_ref())`
abbrev pub edge_of : ChaosExperimentSpec → Option EdgeTarget
edge_of spec = and_then spec.target (λ t. t.edge)

abbrev validate_edge : Option EdgeTarget → Result ValidationError (Unit {0})
validate_edge none = err missing_edge_target
validate_edge (some edge) =
    if str_eq edge.source_service "" || str_eq edge.destination_service ""
    then err missing_edge_target
    else ok tt

unfoldable pub validate_experiment : ChaosExperimentSpec → Result ValidationError (Unit {0})
validate_experiment spec =
    if spec.duration == 0
    then err invalid_duration
    else if is_edge_chaos spec.scenario
    then validate_edge (edge_of spec)
    else ok tt

-- the status, or its default where the object has none
unfoldable pub current_status : ChaosExperiment → ChaosExperimentStatus
current_status experiment = unwrap_or experiment.status default_experiment_status

abbrev pub succeeded_count : Job → ℤ
succeeded_count j = unwrap_or (and_then j.status (λ s. s.succeeded)) (pos 0)

abbrev pub failed_count : Job → ℤ
failed_count j = unwrap_or (and_then j.status (λ s. s.failed)) (pos 0)

unfoldable pub all_jobs_succeeded : List Job → Bool
all_jobs_succeeded jobs = not (is_empty jobs) && all (λ j. ltb_ℤ (pos 0) (succeeded_count j)) jobs

unfoldable pub any_job_failed : List Job → Bool
any_job_failed jobs = any (λ j. ltb_ℤ (pos 0) (failed_count j)) jobs
