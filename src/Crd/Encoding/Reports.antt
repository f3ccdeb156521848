-- ===== src/Crd/Encoding/Reports.antt =====
-- src/operator/crd.rs: the JSON of the statuses of a ChaosAnalysis and of a ChaosImpactMap, as their
-- serde attributes say. A number of type `f64` is a parameter, and a variant is its name.
use ch_chaos.Base.{String, Option, none, some, List, [], ◌∷◌}
use ch_chaos.Types.{AnalysisPhase, AnalysisVerdict, pass, fail, ImpactType, direct, indirect}
use ch_chaos.Json.{Value, Items, Members, num, str, arr, obj, nil, cons, end, member}
use ch_chaos.Crd.{
  ChaosAnalysisStatus, ChaosImpactMapStatus, ImpactMapSummary, AffectedService, ServiceMetrics,
  MetricImpact,
}
use ch_chaos.Crd.Encoding.{optional}

abbrev pub analysis_phase_name : AnalysisPhase → String
analysis_phase_name AnalysisPhase.pending = "Pending"
analysis_phase_name AnalysisPhase.completed = "Completed"
analysis_phase_name AnalysisPhase.failed = "Failed"

abbrev verdict_name : AnalysisVerdict → String
verdict_name pass = "Pass"
verdict_name fail = "Fail"

abbrev impact_type_name : ImpactType → String
impact_type_name direct = "Direct"
impact_type_name indirect = "Indirect"

-- `skip_serializing_if = "Option::is_none"`, of any type
abbrev pub optional_value : {A : Type 0} → String → (A → Value) → Option A → Members → Members
optional_value k value none ms = ms
optional_value k value (some a) ms = member k (value a) ms

module _ {F : Type 0} (number : F → Value) where
  unfoldable pub analysis_members : ChaosAnalysisStatus F → Members
  analysis_members s = member "phase" (str (analysis_phase_name s.phase)) (
      optional_value "verdict" (λ v. str (verdict_name v)) s.verdict
        (optional_value "impactScore" num s.impact_score (
          optional_value "baselineValue" number s.baseline_value (
            optional_value "duringValue" number s.during_value (
              optional_value "degradationPercent" number s.degradation_percent
                (optional "message" s.message end))))))

  abbrev impact_value : MetricImpact F → Value
  impact_value m = obj (
      member "baseline" (number m.baseline)
        (member "during" (number m.during) (member "impactScore" (num m.impact_score) end)))

  abbrev metrics_value : ServiceMetrics F → Value
  metrics_value m = obj (
      member "latencyP99" (impact_value m.latency_p99) (
        member "errorRate" (impact_value m.error_rate)
          (member "throughput" (impact_value m.throughput) end)))

  abbrev service_value : AffectedService F → Value
  service_value s = obj (
      member "workload" (str s.workload) (
        member "namespace" (str s.namespace) (
          member "impactScore" (num s.impact_score) (
            optional_value "impactType" (λ t. str (impact_type_name t)) s.impact_type
              (member "metrics" (metrics_value s.metrics) end)))))

  abbrev pub service_items : List (AffectedService F) → Items
  service_items [] = nil
  service_items (s ∷ l) = cons (service_value s) (service_items l)

  abbrev pub summary_members : ImpactMapSummary → Members
  summary_members s =
      member "totalScanned" (num s.total_scanned)
        (member "totalAffected" (num s.total_affected) (optional "message" s.message end))

  -- `skip_serializing_if = "Vec::is_empty"`
  abbrev pub services_member : List (AffectedService F) → Members → Members
  services_member [] ms = ms
  services_member (s ∷ l) ms = member "affectedServices" (arr (service_items (s ∷ l))) ms

  unfoldable pub impact_map_members : ChaosImpactMapStatus F → Members
  impact_map_members s = member "phase" (str (analysis_phase_name s.phase)) (
      optional_value "summary" (λ m. obj (summary_members m)) s.summary
        (services_member s.affected_services (optional "message" s.message end)))
