-- ===== src/Crd.antt =====
-- src/operator/crd.rs: the specs and statuses of the three custom resources. `f64` is the type `F`
-- that the development takes as a parameter. The score is in `Crd.Impact`.
pub mod Impact
pub mod Encoding
use ch_chaos.Base.{ℕ, String, Bool, false, Option, none, List, []}
use ch_chaos.Types.{
  ScenarioType, Phase, DegradationDirection, AnalysisVerdict, AnalysisPhase, ImpactType, Target,
}
use ch_chaos.Json.{Value}
use ch_chaos.Objects.{ObjectMeta}

pub record ChaosExperimentSpec : Type 0 where
  pub scenario : ScenarioType
  pub duration : ℕ
  pub target_namespace : Option String
  pub target : Option Target
  pub parameters : Option Value

pub record ChaosExperimentStatus : Type 0 where
  pub phase : Phase
  pub message : Option String
  pub started_at : Option String
  pub completed_at : Option String
  pub experiment_id : Option String
  pub runner_jobs : List String
  pub cleanup_done : Bool

-- `ChaosExperimentStatus::default()`
abbrev pub default_experiment_status : ChaosExperimentStatus
default_experiment_status = record {
  phase = Phase.pending;
  message = none;
  started_at = none;
  completed_at = none;
  experiment_id = none;
  runner_jobs = [];
  cleanup_done = false;
}

-- the type that the `CustomResource` derive makes of a spec and its status
pub record ChaosExperiment : Type 0 where
  pub metadata : ObjectMeta
  pub spec : ChaosExperimentSpec
  pub status : Option ChaosExperimentStatus

pub record ExperimentRef : Type 0 where
  pub name : String
  pub namespace : Option String

pub record PrometheusConfig : Type 0 where
  pub url : String
  pub baseline_window : String

pub record SuccessCriteria : Type 0 where
  pub max_impact : ℕ

pub record ChaosAnalysisSpec : Type 0 where
  pub experiment_ref : ExperimentRef
  pub prometheus : PrometheusConfig
  pub query : String
  pub degradation_direction : DegradationDirection
  pub success_criteria : SuccessCriteria

pub record ChaosAnalysisStatus (F : Type 0) : Type 0 where
  pub phase : AnalysisPhase
  pub verdict : Option AnalysisVerdict
  pub impact_score : Option ℕ
  pub baseline_value : Option F
  pub during_value : Option F
  pub degradation_percent : Option F
  pub message : Option String

abbrev pub default_analysis_status : {F : Type 0} → ChaosAnalysisStatus F
default_analysis_status = record {
  phase = AnalysisPhase.pending;
  verdict = none;
  impact_score = none;
  baseline_value = none;
  during_value = none;
  degradation_percent = none;
  message = none;
}

pub record ChaosAnalysis (F : Type 0) : Type 0 where
  pub metadata : ObjectMeta
  pub spec : ChaosAnalysisSpec
  pub status : Option (ChaosAnalysisStatus F)

pub record ImpactMapScope : Type 0 where
  pub namespaces : List String

pub record ChaosImpactMapSpec : Type 0 where
  pub experiment_ref : ExperimentRef
  pub prometheus : PrometheusConfig
  pub scope : Option ImpactMapScope
  pub min_impact : ℕ

abbrev pub default_min_impact : ℕ
default_min_impact = 5

pub record ImpactMapSummary : Type 0 where
  pub total_scanned : ℕ
  pub total_affected : ℕ
  pub message : Option String

pub record MetricImpact (F : Type 0) : Type 0 where
  pub baseline : F
  pub during : F
  pub impact_score : ℕ

pub record ServiceMetrics (F : Type 0) : Type 0 where
  pub latency_p99 : MetricImpact F
  pub error_rate : MetricImpact F
  pub throughput : MetricImpact F

pub record AffectedService (F : Type 0) : Type 0 where
  pub workload : String
  pub namespace : String
  pub impact_score : ℕ
  pub impact_type : Option ImpactType
  pub metrics : ServiceMetrics F

pub record ChaosImpactMapStatus (F : Type 0) : Type 0 where
  pub phase : AnalysisPhase
  pub summary : Option ImpactMapSummary
  pub affected_services : List (AffectedService F)
  pub message : Option String

abbrev pub default_impact_map_status : {F : Type 0} → ChaosImpactMapStatus F
default_impact_map_status = record {
  phase = AnalysisPhase.pending;
  summary = none;
  affected_services = [];
  message = none;
}

pub record ChaosImpactMap (F : Type 0) : Type 0 where
  pub metadata : ObjectMeta
  pub spec : ChaosImpactMapSpec
  pub status : Option (ChaosImpactMapStatus F)
