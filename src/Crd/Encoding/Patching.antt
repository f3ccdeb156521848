-- ===== src/Crd/Encoding/Patching.antt =====
-- A merge patch by a status (ChaosExperimentStatus of src/operator/crd.rs), field by field.
use ch_chaos.Base.{
  String, ◌≡◌, refl, ◌∙◌, Option, none, some, List, [], ◌∷◌, if◌then◌else◌, is_empty,
}
use mathlib.Core.Option
use ch_chaos.Json.{Members, str, arr, end, find_member}
use ch_chaos.Json.MergePatch.{IsMergePatch}
use ch_chaos.Crd.{ChaosExperimentStatus, default_experiment_status}
use ch_chaos.Crd.Encoding.{item_texts}
use ch_chaos.Crd.Encoding.Reading.{HasFields, texts_value}

abbrev pub or_else : Option String → Option String → Option String
or_else none old = old
or_else (some s) old = some s

-- The status after a merge patch by a new one: what its JSON leaves out stays as it was.
abbrev pub merge_status : ChaosExperimentStatus → ChaosExperimentStatus → ChaosExperimentStatus
merge_status old new = record {
  phase = new.phase;
  message = or_else new.message old.message;
  started_at = or_else new.started_at old.started_at;
  completed_at = or_else new.completed_at old.completed_at;
  experiment_id = or_else new.experiment_id old.experiment_id;
  runner_jobs = if is_empty new.runner_jobs then old.runner_jobs else new.runner_jobs;
  cleanup_done = new.cleanup_done;
}

module _ (merge : Members → Members → Members) (law : IsMergePatch merge) (t p : Members) where
  text_merged :
      (k : String) (old new : Option String)
      → find_member t k ≡ Option.map str old
      → find_member p k ≡ Option.map str new
      → find_member (merge t p) k ≡ Option.map str (or_else new old)
  text_merged k old none ht hp = law.kept t p k hp ∙ ht
  text_merged k old (some s) ht hp = law.replaced t p k (str s) hp refl

  texts_merged :
      (k : String) (old new : List String)
      → find_member t k ≡ texts_value old
      → find_member p k ≡ texts_value new
      → find_member (merge t p) k ≡ texts_value (if is_empty new then old else new)
  texts_merged k old [] ht hp = law.kept t p k hp ∙ ht
  texts_merged k old (s ∷ l) ht hp = law.replaced t p k (arr (item_texts (s ∷ l))) hp refl

  pub merge-HasFields :
      {old new : ChaosExperimentStatus}
      → HasFields t old
      → HasFields p new
      → HasFields (merge t p) (merge_status old new)
  merge-HasFields {old} {new} ht hp = record {
    phase = law.replaced t p "phase" _ hp.phase refl;
    message = text_merged "message" old.message new.message ht.message hp.message;
    started_at = text_merged "startedAt" old.started_at new.started_at ht.started_at hp.started_at;
    completed_at =
        text_merged "completedAt" old.completed_at new.completed_at ht.completed_at hp.completed_at;
    experiment_id =
        text_merged "experimentId" old.experiment_id new.experiment_id ht.experiment_id
          hp.experiment_id;
    runner_jobs =
        texts_merged "runnerJobs" old.runner_jobs new.runner_jobs ht.runner_jobs hp.runner_jobs;
    cleanup_done = law.replaced t p "cleanupDone" _ hp.cleanup_done refl;
  }

module _ (merge : Members → Members → Members) (law : IsMergePatch merge) where
  fresh_text :
      (p : Members) (k : String) (o : Option String)
      → find_member p k ≡ Option.map str o
      → find_member (merge end p) k ≡ Option.map str (or_else o none)
  fresh_text p k none h = law.kept end p k h
  fresh_text p k (some s) h = law.replaced end p k (str s) h refl

  fresh_texts :
      (p : Members) (k : String) (l : List String)
      → find_member p k ≡ texts_value l
      → find_member (merge end p) k ≡ texts_value (if is_empty l then [] else l)
  fresh_texts p k [] h = law.kept end p k h
  fresh_texts p k (s ∷ l) h = law.replaced end p k (arr (item_texts (s ∷ l))) h refl

  -- where there was no status
  pub fresh-HasFields :
      {p : Members} {new : ChaosExperimentStatus}
      → HasFields p new
      → HasFields (merge end p) (merge_status default_experiment_status new)
  fresh-HasFields {p} {new} h = record {
    phase = law.replaced end p "phase" _ h.phase refl;
    message = fresh_text p "message" new.message h.message;
    started_at = fresh_text p "startedAt" new.started_at h.started_at;
    completed_at = fresh_text p "completedAt" new.completed_at h.completed_at;
    experiment_id = fresh_text p "experimentId" new.experiment_id h.experiment_id;
    runner_jobs = fresh_texts p "runnerJobs" new.runner_jobs h.runner_jobs;
    cleanup_done = law.replaced end p "cleanupDone" _ h.cleanup_done refl;
  }
