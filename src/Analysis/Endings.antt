-- ===== src/Analysis/Endings.antt =====
-- How a reconcile of an analysis (src/operator/analysis_reconciler.rs) ends, in each case.
use ch_chaos.Base.{
  ◌≡◌, refl, sym, subst, String, true, false, Bool-cases, inl, inr, List, ◌∷◌, Result, ok, err,
  Outcome, done, fail, panic, settle, format, [], attempt-request, some, none, decimal,
}
use ch_chaos.Types.{AnalysisPhase, is_terminal, phase_name}
use ch_chaos.Errors.{OperatorError, operator_text}
use ch_chaos.Crd.{ChaosAnalysis, ChaosAnalysisStatus, ChaosExperimentStatus}
use ch_chaos.Crd.Impact.{calculate_impact}
use ch_chaos.Float.{Float}
use ch_chaos.Chrono.{Chrono}
use ch_chaos.Analysis.{
  Call, Clients, is_completed_phase, analysis_name, analysis_namespace, completed_status,
  patch_failed, analyse, with_during, with_baseline, with_experiment, current_status,
  reconcile_analysis,
}
use ch_chaos.Analysis.Windows.{query_times}
use ch_chaos.Analysis.Outcomes.{experiment_namespace}

module _ {F DateTime TimeDelta : Type 0} (float : Float F) (chrono : Chrono DateTime TimeDelta)
    (clients : Clients F) (a : ChaosAnalysis F) (log : List (Call F)) where
  abbrev ns : String
  ns = analysis_namespace float chrono clients a

  abbrev name : String
  name = analysis_name float chrono clients a

  -- the calls after the read of the experiment, and after each query
  abbrev pub fetched : List (Call F)
  fetched =
      Call.get_experiment_status (experiment_namespace float chrono clients a)
        a.spec.experiment_ref.name
      ∷ log

  abbrev pub queried : DateTime → List (Call F) → List (Call F)
  queried time l = Call.query_at a.spec.query (chrono.to_rfc3339 time) ∷ l

  abbrev Fetches : Result OperatorError ChaosExperimentStatus → Type 0
  Fetches r =
      clients.get_experiment_status (experiment_namespace float chrono clients a)
        a.spec.experiment_ref.name log
      ≡ r

  abbrev Answers : DateTime → List (Call F) → Result OperatorError F → Type 0
  Answers time l r = clients.query_at a.spec.query (chrono.to_rfc3339 time) l ≡ r

  -- The experiment is over, and this comes of the times at which the analysis is to query.
  abbrev Times : Outcome OperatorError (DateTime × DateTime) → Type 0
  Times o =
      (status : ChaosExperimentStatus) × Fetches (ok status)
      × (is_terminal status.phase ≡ true)
      × (query_times chrono status a.spec.prometheus.baseline_window ≡ o)

  -- the status that reports no result, written out
  abbrev pub unfinished : AnalysisPhase → String → ChaosAnalysisStatus F
  unfinished phase message = record {
    phase = phase;
    verdict = none;
    impact_score = none;
    baseline_value = none;
    during_value = none;
    degradation_percent = none;
    message = some message;
  }

  -- the status that reports the impact of the chaos on two measured numbers, written out
  abbrev pub scored : F → F → ChaosAnalysisStatus F
  unfolding calculate_impact
  scored baseline value =
      let (score, verdict, percent) =
        calculate_impact float baseline value a.spec.degradation_direction
          a.spec.success_criteria.max_impact in
      record {
        phase = AnalysisPhase.completed;
        verdict = some verdict;
        impact_score = some score;
        baseline_value = some baseline;
        during_value = some value;
        degradation_percent = some percent;
        message = some (
            format (
              "Impact "
              ∷ decimal score
              ∷ "/100. baseline="
              ∷ float.fixed 4 baseline
              ∷ " -> during="
              ∷ float.fixed 4 value
              ∷ " ("
              ∷ float.fixed 1 percent
              ∷ "%), threshold="
              ∷ decimal a.spec.success_criteria.max_impact
              ∷ []));
      }

  -- the status that is to be written, after these calls
  pub data Report : ChaosAnalysisStatus F → List (Call F) → Type 0 where
    unfetched :
        {x : OperatorError}
        → Fetches (err x)
        → Report
            (unfinished AnalysisPhase.failed (
              format (
                "cannot get experiment '"
                ∷ a.spec.experiment_ref.name
                ∷ "': "
                ∷ operator_text x
                ∷ [])))
            fetched
    waiting :
        {status : ChaosExperimentStatus}
        → Fetches (ok status)
        → is_terminal status.phase ≡ false
        → Report
            (unfinished AnalysisPhase.pending (
              format (
                "Waiting for experiment '"
                ∷ a.spec.experiment_ref.name
                ∷ "' to complete (phase: "
                ∷ phase_name status.phase
                ∷ ")"
                ∷ [])))
            fetched
    baseline_unknown :
        {before during : DateTime} {x : OperatorError}
        → Times (done (before, during))
        → Answers before fetched (err x)
        → Report
            (unfinished AnalysisPhase.failed
              (format ("baseline query failed: " ∷ operator_text x ∷ [])))
            (queried before fetched)
    during_unknown :
        {before during : DateTime} {baseline : F} {x : OperatorError}
        → Times (done (before, during))
        → Answers before fetched (ok baseline)
        → Answers during (queried before fetched) (err x)
        → Report
            (unfinished AnalysisPhase.failed
              (format ("chaos window query failed: " ∷ operator_text x ∷ [])))
            (queried during (queried before fetched))
    measured :
        {before during : DateTime} {baseline value : F}
        → Times (done (before, during))
        → Answers before fetched (ok baseline)
        → Answers during (queried before fetched) (ok value)
        → Report (scored baseline value) (queried during (queried before fetched))

  -- How the reconcile ends, and with which calls: one status is written last, or the times of the
  -- experiment give an error or cannot be represented.
  pub data Ending : Outcome OperatorError (Unit {0}) × List (Call F) → Type 0 where
    reported :
        {status : ChaosAnalysisStatus F} {calls : List (Call F)}
        → Report status calls
        → Ending (
          settle (clients.patch_analysis_status ns name status calls),
          Call.patch_analysis_status ns name status ∷ calls,
        )
    untimed : {x : OperatorError} → Times (fail x) → Ending (fail x, fetched)
    overflowed : Times panic → Ending (panic, fetched)

  module _ (before during : DateTime) (times : Times (done (before, during))) where
    during-Ending :
        (baseline : F) (r : Result OperatorError F)
        → Answers before fetched (ok baseline)
        → Answers during (queried before fetched) r
        → Ending (
            with_during float chrono clients a baseline r (queried during (queried before fetched)))
    unfolding patch_failed scored completed_status
    during-Ending baseline (ok value) b d = reported (measured times b d)
    during-Ending baseline (err x) b d = reported (during_unknown times b d)

    baseline-Ending :
        (r : Result OperatorError F)
        → Answers before fetched r
        → Ending (with_baseline float chrono clients a during r (queried before fetched))
    unfolding patch_failed
    baseline-Ending (ok baseline) b =
        subst Ending
          (sym (
            attempt-request _ (clients.query_at a.spec.query (chrono.to_rfc3339 during))
              (with_during float chrono clients a baseline) (queried before fetched)))
          (during-Ending baseline _ b refl)
    baseline-Ending (err x) b = reported (baseline_unknown times b)

  module _ (status : ChaosExperimentStatus) (got : Fetches (ok status))
      (over : is_terminal status.phase ≡ true) where
    times-Ending :
        (o : Outcome OperatorError (DateTime × DateTime))
        → query_times chrono status a.spec.prometheus.baseline_window ≡ o
        → Ending (analyse float chrono clients a status fetched)
    unfolding analyse
    times-Ending (done (before, during)) e = rw e (
        subst Ending
          (sym (
            attempt-request _ (clients.query_at a.spec.query (chrono.to_rfc3339 before))
              (with_baseline float chrono clients a during) fetched))
          (baseline-Ending before during (status, got, over, e) _ refl))
    times-Ending (fail x) e = rw e (untimed (status, got, over, e))
    times-Ending panic e = rw e (overflowed (status, got, over, e))

  fetched-Ending :
      (r : Result OperatorError ChaosExperimentStatus)
      → Fetches r
      → Ending (with_experiment float chrono clients a r fetched)
  unfolding patch_failed
  fetched-Ending (err x) got = reported (unfetched got)
  fetched-Ending (ok status) got = elim (Bool-cases (is_terminal status.phase)) [
    | inl over ↦ rw over (times-Ending status got over _ refl)
    | inr going ↦ rw going (reported (waiting got going))
  ]

  -- However the clients answer, a reconcile of an analysis that is not completed reads its experiment
  -- once. Where the experiment is not over or cannot be read, that is reported; where it is over, its
  -- times give the error of the reconcile or the two queries, whose answers give the status: completed
  -- with the impact of the two numbers, or failed with the error of the query. An experiment that is not
  -- over leaves the analysis pending, one that cannot be read makes it failed. One status is written, as the last call, and
  -- its answer is that of the reconcile.
  pub reconcile_analysis-Ending :
      is_completed_phase (current_status float chrono clients a).phase ≡ false
      → Ending (reconcile_analysis float chrono clients a log)
  unfolding reconcile_analysis
  reconcile_analysis-Ending unfinished = rw unfinished (
      subst Ending
        (sym (
          attempt-request _
            (clients.get_experiment_status (experiment_namespace float chrono clients a)
              a.spec.experiment_ref.name)
            (with_experiment float chrono clients a) log))
        (fetched-Ending _ refl))
