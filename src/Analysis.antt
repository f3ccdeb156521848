-- ===== src/Analysis.antt =====
-- src/operator/analysis_reconciler.rs: the reconciler of ChaosAnalyses.
pub mod Windows
pub mod Outcomes
pub mod Endings
use ch_chaos.Base.{
  ℕ, suc, ◌+◌, ◌-◌, ◌/◌, String, Bool, true, false, Option, none, some, List, [], ◌∷◌, Result, ok,
  err, ℤ, pos, negsuc, as_i64, if◌then◌else◌, unwrap_or, ok_or, format, decimal, Action, pure,
  raise, lift, or_panic, returned, attempt, request, ◌>>=◌, ◌>>◌, ◌==◌,
}
use ch_chaos.Types.{AnalysisPhase, AnalysisVerdict, Phase, is_terminal, phase_name}
use ch_chaos.Errors.{OperatorError, analysis, operator_text}
use ch_chaos.Crd.{
  ChaosAnalysis, ChaosAnalysisStatus, ChaosExperimentStatus, default_analysis_status,
}
use ch_chaos.Crd.Impact.{calculate_impact}
use ch_chaos.Float.{Float}
use ch_chaos.Chrono.{Chrono}
use ch_chaos.Analysis.Windows.{query_times}

pub data Call (F : Type 0) : Type 0 where
  get_experiment_status : String → String → Call F
  patch_analysis_status : String → String → ChaosAnalysisStatus F → Call F
  query_at : String → String → Call F

-- `trait AnalysisKubeClient` and `trait AnalysisPrometheusClient`; the answers may depend on all the
-- calls made before.
pub record Clients (F : Type 0) : Type 0 where
  pub get_experiment_status :
      String → String → List (Call F) → Result OperatorError ChaosExperimentStatus
  pub patch_analysis_status :
      String → String → ChaosAnalysisStatus F → List (Call F) → Result OperatorError (Unit {0})
  pub query_at : String → String → List (Call F) → Result OperatorError F

abbrev pub is_completed_phase : AnalysisPhase → Bool
is_completed_phase AnalysisPhase.completed = true
is_completed_phase _ = false

module _ {F DateTime TimeDelta : Type 0} (float : Float F) (chrono : Chrono DateTime TimeDelta)
    (clients : Clients F) where
  abbrev pub Op : Type 0 → Type 0
  Op A = Action (Call F) OperatorError A

  abbrev pub analysis_name : ChaosAnalysis F → String
  analysis_name a = unwrap_or a.metadata.name "unknown"

  abbrev pub analysis_namespace : ChaosAnalysis F → String
  analysis_namespace a = unwrap_or a.metadata.namespace "default"

  abbrev pub patch : ChaosAnalysis F → ChaosAnalysisStatus F → Op (Unit {0})
  patch a status =
      request (Call.patch_analysis_status (analysis_namespace a) (analysis_name a) status)
        (clients.patch_analysis_status (analysis_namespace a) (analysis_name a) status)

  abbrev pub failed_status : String → ChaosAnalysisStatus F
  failed_status message = record default_analysis_status {
    phase = AnalysisPhase.failed;
    message = some message;
  }

  unfoldable pub patch_failed : ChaosAnalysis F → String → Op (Unit {0})
  patch_failed a message = patch a (failed_status message)

  abbrev pub query : ChaosAnalysis F → DateTime → Op F
  query a time =
      request (Call.query_at a.spec.query (chrono.to_rfc3339 time))
        (clients.query_at a.spec.query (chrono.to_rfc3339 time))

  -- steps 5 and 6
  abbrev pub completed_status : ChaosAnalysis F → F → F → ChaosAnalysisStatus F
  unfolding calculate_impact
  completed_status a baseline during =
      let (score, verdict, percent) =
        calculate_impact float baseline during a.spec.degradation_direction
          a.spec.success_criteria.max_impact in
      record {
        phase = AnalysisPhase.completed;
        verdict = some verdict;
        impact_score = some score;
        baseline_value = some baseline;
        during_value = some during;
        degradation_percent = some percent;
        message = some (
            format (
              "Impact "
              ∷ decimal score
              ∷ "/100. baseline="
              ∷ float.fixed 4 baseline
              ∷ " -> during="
              ∷ float.fixed 4 during
              ∷ " ("
              ∷ float.fixed 1 percent
              ∷ "%), threshold="
              ∷ decimal a.spec.success_criteria.max_impact
              ∷ []));
      }

  abbrev pub with_during : ChaosAnalysis F → F → Result OperatorError F → Op (Unit {0})
  with_during a baseline (ok during) = patch a (completed_status a baseline during)
  with_during a baseline (err e) =
      patch_failed a (format ("chaos window query failed: " ∷ operator_text e ∷ []))

  abbrev pub with_baseline : ChaosAnalysis F → DateTime → Result OperatorError F → Op (Unit {0})
  with_baseline a chaos_time (ok baseline) = do
    during ← attempt (query a chaos_time)
    with_during a baseline during
  with_baseline a chaos_time (err e) =
      patch_failed a (format ("baseline query failed: " ∷ operator_text e ∷ []))

  -- step 4, the queries, and the report on their answers
  abbrev pub measure : ChaosAnalysis F → DateTime × DateTime → Op (Unit {0})
  measure a (baseline_time, chaos_time) = do
    baseline ← attempt (query a baseline_time)
    with_baseline a chaos_time baseline

  -- steps 2 to 6, for a finished experiment
  unfoldable pub analyse : ChaosAnalysis F → ChaosExperimentStatus → Op (Unit {0})
  analyse a exp_status = do
    times ← returned (query_times chrono exp_status a.spec.prometheus.baseline_window)
    measure a times

  abbrev pub waiting_status : String → Phase → ChaosAnalysisStatus F
  waiting_status name phase = record default_analysis_status {
    message = some (
        format (
          "Waiting for experiment '"
          ∷ name
          ∷ "' to complete (phase: "
          ∷ phase_name phase
          ∷ ")"
          ∷ []));
  }

  abbrev pub with_experiment :
      ChaosAnalysis F → Result OperatorError ChaosExperimentStatus → Op (Unit {0})
  with_experiment a (ok exp_status) =
      if is_terminal exp_status.phase
      then analyse a exp_status
      else patch a (waiting_status a.spec.experiment_ref.name exp_status.phase)
  with_experiment a (err e) = patch_failed a (
      format
        ("cannot get experiment '" ∷ a.spec.experiment_ref.name ∷ "': " ∷ operator_text e ∷ []))

  abbrev pub current_status : ChaosAnalysis F → ChaosAnalysisStatus F
  current_status a = unwrap_or a.status default_analysis_status

  abbrev pub fetch : ChaosAnalysis F → Op ChaosExperimentStatus
  fetch a =
      let exp_ns = unwrap_or a.spec.experiment_ref.namespace (analysis_namespace a) in
      request (Call.get_experiment_status exp_ns a.spec.experiment_ref.name)
        (clients.get_experiment_status exp_ns a.spec.experiment_ref.name)

  unfoldable pub reconcile_analysis : ChaosAnalysis F → Op (Unit {0})
  reconcile_analysis a =
      if is_completed_phase (current_status a).phase
      then pure tt
      else (do r ← attempt (fetch a); with_experiment a r)
