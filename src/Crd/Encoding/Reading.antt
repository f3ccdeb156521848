-- ===== src/Crd/Encoding/Reading.antt =====
-- The fields of an encoded status (ChaosExperimentStatus of src/operator/crd.rs), and reading it back.
use ch_chaos.Base.{
  String, ◌≡◌, refl, Option, none, some, List, [], ◌∷◌, if◌then◌else◌, str_eq, arith,
}
use mathlib.Core.Option
use ch_chaos.Types.{Phase, pending, running, succeeded, failed, phase_name}
use ch_chaos.Json.{Value, Members, bool, str, arr, find_member}
use ch_chaos.Crd.{ChaosExperimentStatus}
use ch_chaos.Crd.Encoding.{
  item_texts, optional, unless_empty, status_members, read_phase, read_text, texts_of, read_texts,
  read_status,
}

-- what stands under the key of a list of texts
abbrev pub texts_value : List String → Option Value
texts_value [] = none
texts_value (s ∷ l) = some (arr (item_texts (s ∷ l)))

-- The members of a status, seen by their keys.
pub record HasFields (ms : Members) (s : ChaosExperimentStatus) : Type 0 where
  pub phase : find_member ms "phase" ≡ some (str (phase_name s.phase))
  pub message : find_member ms "message" ≡ Option.map str s.message
  pub started_at : find_member ms "startedAt" ≡ Option.map str s.started_at
  pub completed_at : find_member ms "completedAt" ≡ Option.map str s.completed_at
  pub experiment_id : find_member ms "experimentId" ≡ Option.map str s.experiment_id
  pub runner_jobs : find_member ms "runnerJobs" ≡ texts_value s.runner_jobs
  pub cleanup_done : find_member ms "cleanupDone" ≡ some (bool s.cleanup_done)

abbrev or_value : Option Value → Option Value → Option Value
or_value none d = d
or_value (some v) d = some v

or_value-none : (o : Option Value) → or_value o none ≡ o
or_value-none none = refl
or_value-none (some v) = refl

find-optional :
    (j k : String) (o : Option String) (ms : Members)
    → find_member (optional j o ms) k
      ≡ (if str_eq j k then or_value (Option.map str o) (find_member ms k) else find_member ms k)
find-optional j k none ms = ground arith
find-optional j k (some s) ms = ground arith

find-unless_empty :
    (j k : String) (l : List String) (ms : Members)
    → find_member (unless_empty j l ms) k
      ≡ (if str_eq j k then or_value (texts_value l) (find_member ms k) else find_member ms k)
find-unless_empty j k [] ms = ground arith
find-unless_empty j k (s ∷ l) ms = ground arith

ruleset fields = (find-optional, find-unless_empty, or_value-none)

pub status_members-HasFields : (s : ChaosExperimentStatus) → HasFields (status_members s) s
unfolding status_members
status_members-HasFields s = record {
  phase = refl;
  message = simp fields;
  started_at = simp fields;
  completed_at = simp fields;
  experiment_id = simp fields;
  runner_jobs = simp fields;
  cleanup_done = simp fields;
}

read_phase-phase_name : (p : Phase) → read_phase (some (str (phase_name p))) ≡ some p
read_phase-phase_name pending = refl
read_phase-phase_name running = refl
read_phase-phase_name succeeded = refl
read_phase-phase_name failed = refl

read_text-map : (o : Option String) → read_text (Option.map str o) ≡ some o
read_text-map none = refl
read_text-map (some s) = refl

texts_of-item_texts : (l : List String) → texts_of (item_texts l) ≡ some l
texts_of-item_texts [] = refl
texts_of-item_texts (s ∷ l) = rw (texts_of-item_texts l) refl

read_texts-texts_value : (l : List String) → read_texts (texts_value l) ≡ some l
read_texts-texts_value [] = refl
read_texts-texts_value (s ∷ l) = texts_of-item_texts (s ∷ l)

pub HasFields-read_status :
    (ms : Members) (s : ChaosExperimentStatus) → HasFields ms s → read_status ms ≡ some s
unfolding read_status
HasFields-read_status ms s h =
    rw
      (
        h.phase,
        h.message,
        h.started_at,
        h.completed_at,
        h.experiment_id,
        h.runner_jobs,
        h.cleanup_done,
        read_phase-phase_name s.phase,
        read_text-map s.message,
        read_text-map s.started_at,
        read_text-map s.completed_at,
        read_text-map s.experiment_id,
        read_texts-texts_value s.runner_jobs,
      )
      refl

-- A status that is written as JSON is read back as it was.
pub read_status-status_members :
    (s : ChaosExperimentStatus) → read_status (status_members s) ≡ some s
read_status-status_members s =
    HasFields-read_status (status_members s) s (status_members-HasFields s)
