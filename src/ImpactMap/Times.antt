-- ===== src/ImpactMap/Times.antt =====
-- The times at which an impact map (src/operator/impact_map_reconciler.rs) queries, from those of its
-- experiment.
use ch_chaos.Base.{
  ℕ, ◌≡◌, ◌⊎◌, inl, inr, refl, String, true, some, List, [], ◌∷◌, Result, ok, err, Outcome, done,
  fail, settle, format, decimal,
}
use ch_chaos.Types.{is_terminal}
use ch_chaos.Errors.{OperatorError}
use ch_chaos.Crd.{ChaosExperimentStatus, ChaosImpactMap}
use ch_chaos.Chrono.{Chrono}
use ch_chaos.Analysis.Windows.{parse_time, baseline_seconds}
use ch_chaos.ImpactMap.Reconcile.{
  Call, Clients, TimeWindows, at_least_one, calculate_time_windows, experiment_namespace,
}

settled :
    {E A : Type 0} (r : Result E A)
    → ((a : A) × (settle r ≡ done a)) ⊎ (x : E) × (settle r ≡ fail x)
settled (ok a) = inl (a, refl)
settled (err x) = inr (x, refl)

seconds_settled :
    (window : String)
    → ((n : ℕ) × (baseline_seconds window ≡ done n))
      ⊎ (x : OperatorError) × (baseline_seconds window ≡ fail x)
seconds_settled window = settled _

time_settled :
    {DateTime TimeDelta : Type 0} (chrono : Chrono DateTime TimeDelta) (field text : String)
    → ((t : DateTime) × (parse_time chrono field text ≡ done t))
      ⊎ (x : OperatorError) × (parse_time chrono field text ≡ fail x)
time_settled chrono field text = settled _

module _ {F DateTime TimeDelta : Type 0} (clients : Clients F) (chrono : Chrono DateTime TimeDelta)
    (m : ChaosImpactMap F) (log : List (Call F)) where
  -- the calls after the read of the experiment
  abbrev pub fetched : List (Call F)
  fetched =
      Call.get_experiment_status (experiment_namespace clients m) m.spec.experiment_ref.name ∷ log

  abbrev pub Fetches : Result OperatorError ChaosExperimentStatus → Type 0
  Fetches r =
      clients.get_experiment_status (experiment_namespace clients m) m.spec.experiment_ref.name log
      ≡ r

  -- The experiment could be read and is over, with these times.
  abbrev pub Spans : String → String → Type 0
  Spans started_at completed_at =
      (status : ChaosExperimentStatus) × Fetches (ok status)
      × (is_terminal status.phase ≡ true)
      × (status.started_at ≡ some started_at)
      × (status.completed_at ≡ some completed_at)

  -- What comes of the times of the experiment and the window of the spec: the times and windows of the
  -- queries, before the chaos at its start and during the chaos at its end, or an error.
  pub data Windows : Outcome OperatorError TimeWindows → Type 0 where
    windows :
        {started_at completed_at : String} {baseline_secs : ℕ} {started completed : DateTime}
        → Spans started_at completed_at
        → baseline_seconds m.spec.prometheus.baseline_window ≡ done baseline_secs
        → parse_time chrono "startedAt" started_at ≡ done started
        → parse_time chrono "completedAt" completed_at ≡ done completed
        → Windows (
            done (record {
              baseline_time = chrono.to_rfc3339 started;
              baseline_rate_window = format (decimal baseline_secs ∷ "s" ∷ []);
              chaos_time = chrono.to_rfc3339 completed;
              chaos_rate_window = format (
                  decimal (at_least_one (chrono.num_seconds (chrono.since completed started)))
                  ∷ "s"
                  ∷ []);
            }))
    bad_window :
        {started_at completed_at : String} {x : OperatorError}
        → Spans started_at completed_at
        → baseline_seconds m.spec.prometheus.baseline_window ≡ fail x
        → Windows (fail x)
    bad_start :
        {started_at completed_at : String} {baseline_secs : ℕ} {x : OperatorError}
        → Spans started_at completed_at
        → baseline_seconds m.spec.prometheus.baseline_window ≡ done baseline_secs
        → parse_time chrono "startedAt" started_at ≡ fail x
        → Windows (fail x)
    bad_end :
        {started_at completed_at : String} {baseline_secs : ℕ} {started : DateTime}
        {x : OperatorError}
        → Spans started_at completed_at
        → baseline_seconds m.spec.prometheus.baseline_window ≡ done baseline_secs
        → parse_time chrono "startedAt" started_at ≡ done started
        → parse_time chrono "completedAt" completed_at ≡ fail x
        → Windows (fail x)

  pub times_known :
      (s c : String)
      → Spans s c
      → Windows (calculate_time_windows chrono s c m.spec.prometheus.baseline_window)
  unfolding calculate_time_windows
  times_known s c spans = elim (seconds_settled m.spec.prometheus.baseline_window) [
    | inr (x, e) ↦ rw e (bad_window spans e)
    | inl (secs, e) ↦ elim (time_settled chrono "startedAt" s) [
      | inr (x, f) ↦ rw (e, f) (bad_start spans e f)
      | inl (started, f) ↦ elim (time_settled chrono "completedAt" c) [
        | inr (x, g) ↦ rw (e, f, g) (bad_end spans e f g)
        | inl (completed, g) ↦ rw (e, f, g) (windows spans e f g)
      ]
    ]
  ]
