-- ===== src/Experiment/Progress/Jobs.antt =====
-- How a running node experiment moves on by the state of its Jobs (`handle_running_pod` of
-- src/operator/reconciler.rs).
use ch_chaos.Base.{
  ℕ, ◌<◌, ◌^◌, ◌≤◌, String, ◌≡◌, true, false, Option, some, none, List, [], ◌∷◌, ok, pos, done,
  settle, arith, Outcome, format, ℤ, negsuc, ltb_ℤ, unwrap_or, and_then, Any, All, all, refl, ◌≢◌,
  ◌⊎◌, inl, inr,
}
use ch_chaos.Types.{Phase, is_edge_chaos, experiment_label}
use ch_chaos.Errors.{OperatorError}
use ch_chaos.Objects.{Job}
use ch_chaos.Crd.{ChaosExperiment, ChaosExperimentStatus}
use ch_chaos.Experiment.{
  Call, KubeClient, System, exp_name, exp_namespace, current_status, any_job_failed,
  all_jobs_succeeded, succeeded_count,
}
use ch_chaos.Experiment.Handlers.{handle_running, handle_running_pod, complete, is_duration_elapsed}

-- a count of pods that is there and above zero
abbrev pub IsCounted : Option ℤ → Type 0
IsCounted none = ⊥
IsCounted (some (pos n)) = 0 < n
IsCounted (some (negsuc n)) = ⊥

-- The status of the Job counts a failed pod, and a pod that succeeded.
abbrev pub HasFailed : Job → Type 0
HasFailed j = IsCounted (and_then j.status (λ s. s.failed))

abbrev pub HasSucceeded : Job → Type 0
HasSucceeded j = IsCounted (and_then j.status (λ s. s.succeeded))

-- No Job has failed, and there is none or one that has not succeeded.
abbrev pub IsUndecided : List Job → Type 0
IsUndecided jobs = All (λ j. ¬ HasFailed j) jobs × ((jobs ≡ []) ⊎ Any (λ j. ¬ HasSucceeded j) jobs)

counted : (c : Option ℤ) → IsCounted c → ltb_ℤ (pos 0) (unwrap_or c (pos 0)) ≡ true
counted none h = elim h [ ]
counted (some (pos n)) h = ground (arith, h)
counted (some (negsuc n)) h = elim h [ ]

not_counted : (c : Option ℤ) → ¬ IsCounted c → ltb_ℤ (pos 0) (unwrap_or c (pos 0)) ≡ false
not_counted none h = refl
not_counted (some (pos n)) h = ground (arith, h)
not_counted (some (negsuc n)) h = ground arith

any_failed : (jobs : List Job) → Any HasFailed jobs → any_job_failed jobs ≡ true
unfolding any_job_failed
any_failed [] h = elim h [ ]
any_failed (j ∷ jobs) (inl h) = rw (counted (and_then j.status (λ s. s.failed)) h) refl
any_failed (j ∷ jobs) (inr h) = ground (arith, any_failed jobs h)

none_failed : (jobs : List Job) → All (λ j. ¬ HasFailed j) jobs → any_job_failed jobs ≡ false
unfolding any_job_failed
none_failed [] h = refl
none_failed (j ∷ jobs) (h, hs) =
    rw (not_counted (and_then j.status (λ s. s.failed)) h) (none_failed jobs hs)

succeeded_each :
    (jobs : List Job)
    → All HasSucceeded jobs
    → all (λ j. ltb_ℤ (pos 0) (succeeded_count j)) jobs ≡ true
succeeded_each [] h = refl
succeeded_each (j ∷ jobs) (h, hs) =
    rw (counted (and_then j.status (λ s. s.succeeded)) h) (succeeded_each jobs hs)

each_done : (jobs : List Job) → jobs ≢ [] → All HasSucceeded jobs → all_jobs_succeeded jobs ≡ true
unfolding all_jobs_succeeded
each_done [] some_job h = absurd (some_job refl)
each_done (j ∷ jobs) some_job h = succeeded_each (j ∷ jobs) h

missing_one :
    (jobs : List Job)
    → Any (λ j. ¬ HasSucceeded j) jobs
    → all (λ j. ltb_ℤ (pos 0) (succeeded_count j)) jobs ≡ false
missing_one [] h = elim h [ ]
missing_one (j ∷ jobs) (inl h) = rw (not_counted (and_then j.status (λ s. s.succeeded)) h) refl
missing_one (j ∷ jobs) (inr h) = ground (arith, missing_one jobs h)

not_all_done :
    (jobs : List Job)
    → (jobs ≡ []) ⊎ Any (λ j. ¬ HasSucceeded j) jobs
    → all_jobs_succeeded jobs ≡ false
unfolding all_jobs_succeeded
not_all_done jobs (inl h) = rw h refl
not_all_done [] (inr h) = elim h [ ]
not_all_done (j ∷ jobs) (inr h) = missing_one (j ∷ jobs) h

module _ {DateTime : Type 0} (sys : System DateTime) (kube : KubeClient) (e : ChaosExperiment)
    (jobs : List Job) (log : List Call) where
  abbrev pub selector : String
  selector = format (experiment_label ∷ "=" ∷ exp_name e ∷ [])

  abbrev pub listed : List Call
  listed = Call.list_jobs (exp_namespace e) selector ∷ log

  -- What becomes of the experiment, by its Jobs and its start: the phase and message of its end, or
  -- none, and the calls made by then. A clock reading is the number of seconds since the start.
  pub data Verdict : Option (Phase × String) → List Call → Type 0 where
    job_failed :
        Any HasFailed jobs → Verdict (some (Phase.failed, "One or more runner jobs failed")) listed
    all_succeeded :
        All (λ j. ¬ HasFailed j) jobs
        → jobs ≢ []
        → All HasSucceeded jobs
        → Verdict (some (Phase.succeeded, "All runner jobs completed")) listed
    time_passed :
        {started_at : String} {start : DateTime} {n : ℕ}
        → IsUndecided jobs
        → (current_status e).started_at ≡ some started_at
        → sys.parse_from_rfc3339 started_at ≡ some start
        → sys.seconds_since start (sys.now listed) ≡ pos n
        → e.spec.duration < 2 ^ 63
        → e.spec.duration ≤ n
        → Verdict (some (Phase.succeeded, "Duration elapsed")) (Call.read_clock ∷ listed)
    too_early :
        {started_at : String} {start : DateTime} {n : ℕ}
        → IsUndecided jobs
        → (current_status e).started_at ≡ some started_at
        → sys.parse_from_rfc3339 started_at ≡ some start
        → sys.seconds_since start (sys.now listed) ≡ pos n
        → e.spec.duration < 2 ^ 63
        → n < e.spec.duration
        → Verdict none (Call.read_clock ∷ listed)
    clock_behind :
        {started_at : String} {start : DateTime} {n : ℕ}
        → IsUndecided jobs
        → (current_status e).started_at ≡ some started_at
        → sys.parse_from_rfc3339 started_at ≡ some start
        → sys.seconds_since start (sys.now listed) ≡ negsuc n
        → e.spec.duration < 2 ^ 63
        → Verdict none (Call.read_clock ∷ listed)
    unreadable_start :
        {started_at : String}
        → IsUndecided jobs
        → (current_status e).started_at ≡ some started_at
        → sys.parse_from_rfc3339 started_at ≡ none
        → Verdict none listed
    no_start : IsUndecided jobs → (current_status e).started_at ≡ none → Verdict none listed

  abbrev pub final_status : Phase → String → List Call → ChaosExperimentStatus
  final_status phase message calls = record (current_status e) {
    phase = phase;
    message = some message;
    completed_at = some (sys.to_rfc3339 (sys.now calls));
  }

  abbrev pub concluded :
      Option (Phase × String) → List Call → Outcome OperatorError (Unit {0}) × List Call
  concluded none calls = (done tt, calls)
  concluded (some (phase, message)) calls =
      let status = final_status phase message calls in
      (
        settle (
            kube.patch_experiment_status (exp_namespace e) (exp_name e) status
              (Call.read_clock ∷ calls)),
        Call.patch_experiment_status (exp_namespace e) (exp_name e) status
            ∷ Call.read_clock
            ∷ calls,
      )

  -- A running node experiment, where the client lists its Jobs: if one counts a failed pod it ends as
  -- Failed; else if there are Jobs and each counts a pod that succeeded it ends as Succeeded; else it ends
  -- as Succeeded once its duration, below 2^63, has passed since the recorded start. An end is one status
  -- write with the time and all else kept. Before that, and where no start is recorded, it cannot be read
  -- or lies in the future, nothing is written.
  pub handle_running-Verdict :
      {verdict : Option (Phase × String)} {calls : List Call}
      → is_edge_chaos e.spec.scenario ≡ false
      → kube.list_jobs (exp_namespace e) selector log ≡ ok jobs
      → Verdict verdict calls
      → handle_running sys kube e log ≡ concluded verdict calls
  unfolding handle_running handle_running_pod complete is_duration_elapsed
  handle_running-Verdict pod found (job_failed a) = ground (arith, pod, found, any_failed jobs a)
  handle_running-Verdict pod found (all_succeeded a b c) =
      ground (arith, pod, found, none_failed jobs a, each_done jobs b c)
  handle_running-Verdict pod found (time_passed (a, b) c d f g h) =
      ground (arith, pod, found, none_failed jobs a, not_all_done jobs b, c, d, f, g, h)
  handle_running-Verdict pod found (too_early (a, b) c d f g h) =
      ground (arith, pod, found, none_failed jobs a, not_all_done jobs b, c, d, f, g, h)
  handle_running-Verdict pod found (clock_behind (a, b) c d f g) =
      ground (arith, pod, found, none_failed jobs a, not_all_done jobs b, c, d, f, g)
  handle_running-Verdict pod found (unreadable_start (a, b) c d) =
      ground (arith, pod, found, none_failed jobs a, not_all_done jobs b, c, d)
  handle_running-Verdict pod found (no_start (a, b) c) =
      ground (arith, pod, found, none_failed jobs a, not_all_done jobs b, c)
