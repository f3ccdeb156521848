-- ===== src/Analysis/Outcomes.antt =====
-- What an analysis reports: which calls a reconcile of it may make.
use ch_chaos.Base.{
  ℕ, ◌≤◌, ◌≡◌, ◌≢◌, refl, ◌↔◌, ◌⊎◌, inl, inr, String, true, false, none, some, List, Result, ok,
  err, unwrap_or, returned,
}
use ch_chaos.Errors.{OperatorError}
use ch_chaos.Types.{AnalysisPhase, AnalysisVerdict, pass, is_terminal}
use ch_chaos.Crd.{ChaosAnalysis, ChaosAnalysisStatus, ChaosExperimentStatus}
use ch_chaos.Crd.Impact.{calculate_impact_bounds}
use ch_chaos.Float.{Float}
use ch_chaos.Chrono.{Chrono}
use ch_chaos.Trace.{
  Emits, >>=-Emits, if-Emits, pure-Emits, request-Emits, returned-Emits, attempt-request->>=,
}
use ch_chaos.Analysis.{
  Call, Clients, is_completed_phase, analysis_name, analysis_namespace, completed_status,
  patch_failed, measure, analyse, with_during, with_baseline, with_experiment, current_status,
  reconcile_analysis,
}

module _ {F DateTime TimeDelta : Type 0} (float : Float F) (chrono : Chrono DateTime TimeDelta)
    (clients : Clients F) (a : ChaosAnalysis F) where
  abbrev pub experiment_namespace : String
  experiment_namespace =
      unwrap_or a.spec.experiment_ref.namespace (analysis_namespace float chrono clients a)

  -- The client said that the experiment is over.
  abbrev pub IsOver : Type 0
  IsOver =
      (status : ChaosExperimentStatus) × (log : List (Call F)) × (clients.get_experiment_status
          experiment_namespace a.spec.experiment_ref.name log
        ≡ ok status)
      × (is_terminal status.phase ≡ true)

  -- Prometheus answered this number to the query of the analysis.
  abbrev pub IsMeasured : F → Type 0
  IsMeasured x =
      (time : String) × (log : List (Call F)) × (clients.query_at a.spec.query time log ≡ ok x)

  -- A result: of a finished experiment, on two measured numbers, with a score of at most 100 and the
  -- verdict that follows from it.
  pub record IsResult (status : ChaosAnalysisStatus F) : Type 0 where
    pub over : IsOver
    pub baseline : F
    pub during : F
    pub score : ℕ
    pub verdict : AnalysisVerdict
    pub baseline_measured : IsMeasured baseline
    pub during_measured : IsMeasured during
    pub baseline_value : status.baseline_value ≡ some baseline
    pub during_value : status.during_value ≡ some during
    pub impact_score : status.impact_score ≡ some score
    pub verdict_is : status.verdict ≡ some verdict
    pub bounded : score ≤ 100
    pub judged : (verdict ≡ pass) ↔ (score ≤ a.spec.success_criteria.max_impact)

  abbrev pub IsReport : ChaosAnalysisStatus F → Type 0
  IsReport status =
      (status.phase ≡ AnalysisPhase.completed) × IsResult status
      ⊎ (status.phase ≢ AnalysisPhase.completed)
        × (status.verdict ≡ none)
        × (status.impact_score ≡ none)

  abbrev pub Permitted : Call F → Type 0
  Permitted (Call.get_experiment_status ns name) =
      (is_completed_phase (current_status float chrono clients a).phase ≡ false)
      × (ns ≡ experiment_namespace)
      × (name ≡ a.spec.experiment_ref.name)
  Permitted (Call.query_at query time) =
      (is_completed_phase (current_status float chrono clients a).phase ≡ false)
      × (query ≡ a.spec.query)
      × IsOver
  Permitted (Call.patch_analysis_status ns name status) =
      (is_completed_phase (current_status float chrono clients a).phase ≡ false)
      × (ns ≡ analysis_namespace float chrono clients a)
      × (name ≡ analysis_name float chrono clients a)
      × IsReport status

  module _
      (unfinished : is_completed_phase (current_status float chrono clients a).phase ≡ false) where
    failed-Permitted :
        (message : String) → Emits Permitted (patch_failed float chrono clients a message)
    unfolding patch_failed
    failed-Permitted message =
        request-Emits Permitted _ _ (unfinished, refl, refl, inr ((λ h. cc h), refl, refl))

    result :
        (baseline during : F)
        → IsOver
        → IsMeasured baseline
        → IsMeasured during
        → IsReport (completed_status float chrono clients a baseline during)
    unfolding completed_status
    result baseline during over b d =
        let bounds =
          calculate_impact_bounds float baseline during a.spec.degradation_direction
            a.spec.success_criteria.max_impact in
        inl (
          refl,
          record {
            over = over;
            baseline = baseline;
            during = during;
            score = _;
            verdict = _;
            baseline_measured = b;
            during_measured = d;
            baseline_value = refl;
            during_value = refl;
            impact_score = refl;
            verdict_is = refl;
            bounded = bounds.0;
            judged = bounds.1;
          },
        )

    during-Permitted :
        (baseline : F)
        → IsOver
        → IsMeasured baseline
        → (time : String) (r : Result OperatorError F) (log : List (Call F))
        → clients.query_at a.spec.query time log ≡ r
        → Emits Permitted (with_during float chrono clients a baseline r)
    during-Permitted baseline over b time (ok during) log d =
        request-Emits Permitted _ _
          (unfinished, refl, refl, result baseline during over b (time, log, d))
    during-Permitted baseline over b time (err e) log d = failed-Permitted _

    baseline-Permitted :
        (chaos_time : DateTime)
        → IsOver
        → (time : String) (r : Result OperatorError F) (log : List (Call F))
        → clients.query_at a.spec.query time log ≡ r
        → Emits Permitted (with_baseline float chrono clients a chaos_time r)
    baseline-Permitted chaos_time over time (ok baseline) log b =
        attempt-request->>= Permitted _ _ (with_during float chrono clients a baseline)
          (unfinished, refl, over)
          (during-Permitted baseline over (time, log, b) (chrono.to_rfc3339 chaos_time))
    baseline-Permitted chaos_time over time (err e) log b = failed-Permitted _

    measure-Permitted :
        (times : DateTime × DateTime)
        → IsOver
        → Emits Permitted (measure float chrono clients a times)
    measure-Permitted (baseline_time, chaos_time) over =
        attempt-request->>= Permitted _ _ (with_baseline float chrono clients a chaos_time)
          (unfinished, refl, over)
          (baseline-Permitted chaos_time over (chrono.to_rfc3339 baseline_time))

    analyse-Permitted :
        (status : ChaosExperimentStatus)
        → IsOver
        → Emits Permitted (analyse float chrono clients a status)
    unfolding analyse
    analyse-Permitted status over =
        >>=-Emits Permitted (returned _) (measure float chrono clients a)
          (returned-Emits Permitted _) (λ times. measure-Permitted times over)

    fetched-Permitted :
        (r : Result OperatorError ChaosExperimentStatus) (log : List (Call F))
        → clients.get_experiment_status experiment_namespace a.spec.experiment_ref.name log ≡ r
        → Emits Permitted (with_experiment float chrono clients a r)
    fetched-Permitted (ok status) log fetched =
        if-Emits Permitted (is_terminal status.phase) _ _
          (λ over. analyse-Permitted status (status, log, fetched, over))
          (λ _. request-Emits Permitted _ _ (unfinished, refl, refl, inr ((λ h. cc h), refl, refl)))
    fetched-Permitted (err e) log fetched = failed-Permitted _

  -- Whatever the clients answer, a reconcile of an analysis that is completed calls nothing. Else it
  -- reads its own experiment, sends only its own query, and that only where the experiment was seen to
  -- be over, and writes only its own status: a completed status carries two numbers that Prometheus
  -- answered to the query, a score of at most 100, and a pass exactly where the score does not exceed
  -- the allowed impact; every other status carries no score and no verdict.
  pub reconcile_analysis-Permitted : Emits Permitted (reconcile_analysis float chrono clients a)
  unfolding reconcile_analysis
  reconcile_analysis-Permitted =
      if-Emits Permitted (is_completed_phase (current_status float chrono clients a).phase) _ _
        (λ _. pure-Emits Permitted tt)
        λ unfinished.
          attempt-request->>= Permitted _ _ (with_experiment float chrono clients a)
            (unfinished, refl, refl) (fetched-Permitted unfinished)
