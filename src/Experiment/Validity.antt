-- ===== src/Experiment/Validity.antt =====
-- Which specs `validate_experiment` (src/operator/reconciler.rs) passes.
use text.Mathlib.TextEquality.{eq_iff}
use ch_chaos.Base.{◌<◌, ◌≡◌, ◌≢◌, ◌↔◌, true, some, ok, arith, Option-cases, inl, inr}
use ch_chaos.Types.{EdgeTarget, is_edge_chaos}
use ch_chaos.Crd.{ChaosExperimentSpec}
use ch_chaos.Experiment.{edge_of, validate_experiment}

-- A spec that can be run: a duration, and for edge chaos the names of both services.
abbrev pub IsRunnable : ChaosExperimentSpec → Type 0
IsRunnable spec =
    (0 < spec.duration)
    × (is_edge_chaos spec.scenario ≡ true
        → (edge : EdgeTarget) × (edge_of spec ≡ some edge)
          × (edge.source_service ≢ "")
          × (edge.destination_service ≢ ""))

-- Validation passes exactly the specs that can be run.
pub validate_experiment_iff :
    (spec : ChaosExperimentSpec) → (validate_experiment spec ≡ ok tt) ↔ IsRunnable spec
unfolding validate_experiment
validate_experiment_iff spec = elim (Option-cases (edge_of spec)) [
  | inl e ↦ ground (arith, e)
  | inr (edge, e) ↦
      ground (arith, e, eq_iff edge.source_service "", eq_iff edge.destination_service "")
]
