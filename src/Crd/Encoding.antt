-- ===== src/Crd/Encoding.antt =====
-- src/operator/crd.rs: the JSON of a ChaosExperimentStatus, as its serde attributes say: a field that
-- is `None`, and an empty `runnerJobs`, are left out; `phase`, `runnerJobs` and `cleanupDone` have
-- defaults where they are missing. A phase is the name of its variant.
pub mod Reading
pub mod Patching
pub mod Reports
use ch_chaos.Base.{
  String, Bool, false, Option, none, some, List, [], ◌∷◌, if◌then◌else◌, str_eq, is_empty,
}
use ch_chaos.Types.{Phase, phase_name}
use ch_chaos.Json.{
  Value, Items, Members, null, bool, str, arr, obj, nil, cons, end, member, find_member,
}
use ch_chaos.Crd.{ChaosExperimentStatus}

abbrev pub item_texts : List String → Items
item_texts [] = nil
item_texts (s ∷ l) = cons (str s) (item_texts l)

-- `skip_serializing_if = "Option::is_none"`
abbrev pub optional : String → Option String → Members → Members
optional k none ms = ms
optional k (some s) ms = member k (str s) ms

-- `skip_serializing_if = "Vec::is_empty"`
abbrev pub unless_empty : String → List String → Members → Members
unless_empty k [] ms = ms
unless_empty k (s ∷ l) ms = member k (arr (item_texts (s ∷ l))) ms

unfoldable pub status_members : ChaosExperimentStatus → Members
status_members s = member "phase" (str (phase_name s.phase)) (
    optional "message" s.message (
      optional "startedAt" s.started_at (
        optional "completedAt" s.completed_at (
          optional "experimentId" s.experiment_id (
            unless_empty "runnerJobs" s.runner_jobs
              (member "cleanupDone" (bool s.cleanup_done) end))))))

abbrev pub parse_phase : String → Option Phase
parse_phase t =
    if str_eq t "Pending"
    then some Phase.pending
    else if str_eq t "Running"
    then some Phase.running
    else if str_eq t "Succeeded"
    then some Phase.succeeded
    else if str_eq t "Failed"
    then some Phase.failed
    else none

abbrev pub read_phase : Option Value → Option Phase
read_phase none = some Phase.pending
read_phase (some (str t)) = parse_phase t
read_phase (some _) = none

abbrev pub read_text : Option Value → Option (Option String)
read_text none = some none
read_text (some null) = some none
read_text (some (str t)) = some (some t)
read_text (some _) = none

abbrev put : String → Option (List String) → Option (List String)
put s none = none
put s (some l) = some (s ∷ l)

abbrev pub texts_of : Items → Option (List String)
texts_of nil = some []
texts_of (cons (str s) l) = put s (texts_of l)
texts_of (cons _ l) = none

abbrev pub read_texts : Option Value → Option (List String)
read_texts none = some []
read_texts (some (arr l)) = texts_of l
read_texts (some _) = none

abbrev pub read_flag : Option Value → Option Bool
read_flag none = some false
read_flag (some (bool b)) = some b
read_flag (some _) = none

infixl 5 ◌>>=◌
abbrev ◌>>=◌ : {A B : Type 0} → Option A → (A → Option B) → Option B
none >>= f = none
some a >>= f = f a

-- the status that is read from the members of an object
unfoldable pub read_status : Members → Option ChaosExperimentStatus
read_status ms = do
  phase ← read_phase (find_member ms "phase")
  message ← read_text (find_member ms "message")
  started_at ← read_text (find_member ms "startedAt")
  completed_at ← read_text (find_member ms "completedAt")
  experiment_id ← read_text (find_member ms "experimentId")
  runner_jobs ← read_texts (find_member ms "runnerJobs")
  cleanup_done ← read_flag (find_member ms "cleanupDone")
  some (record {
    phase = phase;
    message = message;
    started_at = started_at;
    completed_at = completed_at;
    experiment_id = experiment_id;
    runner_jobs = runner_jobs;
    cleanup_done = cleanup_done;
  })
