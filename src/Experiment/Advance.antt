-- ===== src/Experiment/Advance.antt =====
-- When a reconcile (src/operator/reconciler.rs) writes to the experiment: the reasons for not writing,
-- and actions that write or have such a reason.
pub mod Pending
pub mod Running
pub mod All
use ch_chaos.Base.{
  follow, ℕ, String, ◌≡◌, refl, ◌⊎◌, inl, inr, Bool, true, false, Option, none, some, List, [], ◌∷◌,
  Result, ok, err, Outcome, done, fail, panic, Action, settle, caught, pure, attempt, request,
  observe, or_panic, lift, ◌>>=◌, if◌then◌else◌, as_i64, leb_ℤ,
}
use ch_chaos.Types.{Phase, is_edge_chaos, is_terminal}
use ch_chaos.Errors.{OperatorError}
use ch_chaos.Objects.{Job}
use ch_chaos.Crd.{ChaosExperiment, ChaosExperimentStatus}
use ch_chaos.Experiment.{
  Call, KubeClient, System, exp_namespace, current_status, any_job_failed, all_jobs_succeeded,
}
use ch_chaos.Experiment.Kube
use ch_chaos.Experiment.Kube.{Op}
use ch_chaos.Experiment.Handlers.{cleanup_edges}
use ch_chaos.Experiment.Order.{is_write}

module _ {DateTime : Type 0} (sys : System DateTime) (kube : KubeClient) (e : ChaosExperiment) where
  -- The Jobs that the client listed neither failed nor all succeeded.
  abbrev pub IsBusy : Type 0
  IsBusy =
      (selector : String) × (log : List Call) × (jobs : List Job) × (kube.list_jobs
          (exp_namespace e) selector log
        ≡ ok jobs)
      × (any_job_failed jobs ≡ false)
      × (all_jobs_succeeded jobs ≡ false)

  -- The recorded start is missing, cannot be read, or is less than the duration ago.
  pub data IsUnexpired : Type 0 where
    no_start : (current_status e).started_at ≡ none → IsUnexpired
    unreadable :
        {started_at : String}
        → (current_status e).started_at ≡ some started_at
        → sys.parse_from_rfc3339 started_at ≡ none
        → IsUnexpired
    early :
        {started_at : String} {start : DateTime} (log : List Call)
        → (current_status e).started_at ≡ some started_at
        → sys.parse_from_rfc3339 started_at ≡ some start
        → leb_ℤ (as_i64 e.spec.duration) (sys.seconds_since start (sys.now log)) ≡ false
        → IsUnexpired

  -- Why a reconcile leaves an experiment as it is.
  pub data Idle : Type 0 where
    settled :
        is_terminal (current_status e).phase ≡ true → (current_status e).cleanup_done ≡ true → Idle
    dirty :
        (log : List Call) {x : OperatorError}
        → is_terminal (current_status e).phase ≡ true
        → (cleanup_edges kube e log).0 ≡ fail x
        → Idle
    under_way :
        (current_status e).phase ≡ Phase.running
        → (is_edge_chaos e.spec.scenario ≡ true) ⊎ IsBusy
        → IsUnexpired
        → Idle

-- The last call is a write.
abbrev pub HasWritten : List Call → Type 0
HasWritten [] = ⊥
HasWritten (c ∷ log) = is_write c ≡ true

abbrev pub Settles : {A : Type 0} → Type 0 → Outcome OperatorError A × List Call → Type 0
Settles I (done a, l) = HasWritten l ⊎ I
Settles I (fail x, l) = Unit
Settles I (panic, l) = Unit

-- An action that, where it gives a value, ends with a write or has the reason `I` not to.
pub record Reports {A : Type 0} (I : Type 0) (m : Op A) : Type 0 where
  pub run : (log : List Call) → Settles I (m log)

module _ (I : Type 0) where
  resume :
      {A B : Type 0} (f : A → Op B) (r : Outcome OperatorError A × List Call)
      → ((a : A) → r.0 ≡ done a → Reports I (f a))
      → Settles I (follow f r)
  resume f (done a, l) h = (h a refl).run l
  resume f (fail x, l) h = tt
  resume f (panic, l) h = tt

  pub >>=-Reports :
      {A B : Type 0} (m : Op A) (f : A → Op B) → ((a : A) → Reports I (f a)) → Reports I (m >>= f)
  >>=-Reports m f h = record { run = λ log. resume f (m log) (λ a _. h a) }

  -- What follows may use how the first action ended.
  pub ended->>= :
      {A B : Type 0} (m : Op A) (f : A → Op B)
      → ((a : A) (log : List Call) → (m log).0 ≡ done a → Reports I (f a))
      → Reports I (m >>= f)
  ended->>= m f h = record { run = λ log. resume f (m log) (λ a e. h a log e) }

  pub write-Reports :
      {A : Type 0} (c : Call) (answer : List Call → Result OperatorError A)
      → is_write c ≡ true
      → Reports I (request c answer)
  write-Reports {A = A} c answer w = record { run = λ log. by_answer (answer log) log }
    where
      by_answer : (r : Result OperatorError A) (log : List Call) → Settles I (settle r, c ∷ log)
      by_answer (ok a) log = inl w
      by_answer (err x) log = tt

  pub patch-Reports :
      (kube : KubeClient) (ns name : String) (status : ChaosExperimentStatus)
      → Reports I (Kube.patch_experiment_status kube ns name status)
  patch-Reports kube ns name status =
      write-Reports (Call.patch_experiment_status ns name status)
        (kube.patch_experiment_status ns name status) refl

  pub idle-Reports : {A : Type 0} (m : Op A) → I → Reports I m
  idle-Reports {A = A} m i = record { run = λ log. by_outcome (m log) }
    where
      by_outcome : (r : Outcome OperatorError A × List Call) → Settles I r
      by_outcome (done a, l) = inr i
      by_outcome (fail x, l) = tt
      by_outcome (panic, l) = tt

  pub if-Reports :
      {A : Type 0} (b : Bool) (m n : Op A)
      → (b ≡ true → Reports I m)
      → (b ≡ false → Reports I n)
      → Reports I (if b then m else n)
  if-Reports true m n h k = h refl
  if-Reports false m n h k = k refl

  then_silent :
      {A B : Type 0} (f : A → Op B) (r : Outcome OperatorError A × List Call)
      → Settles I r
      → ((a : A) (l : List Call) → (b : B) × (f a l ≡ (done b, l)))
      → Settles I (follow f r)
  then_silent f (done a, l) h k = rw (k a l).1 h
  then_silent f (fail x, l) h k = tt
  then_silent f (panic, l) h k = tt

  -- A value may be made of the result.
  pub Reports->>= :
      {A B : Type 0} (m : Op A) (f : A → Op B)
      → Reports I m
      → ((a : A) (l : List Call) → (b : B) × (f a l ≡ (done b, l)))
      → Reports I (m >>= f)
  Reports->>= m f h k = record { run = λ log. then_silent f (m log) (h.run log) k }
