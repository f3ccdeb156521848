-- ===== src/Runner/Run/Reported.antt =====
-- What the metrics of a runner (src/runner/entry.rs, `run`) say when it has ended.
use ch_chaos.Base.{ℕ, String, ◌≡◌, refl, List, [], ◌∷◌, ok, Outcome, done, fail, panic, str_eq_refl}
use ch_chaos.Types.{scenario_name}
use ch_chaos.Errors.{RunnerError}
use ch_chaos.Runner.{RunnerConfig}
use ch_chaos.Runner.Scenarios.{Call, Effects}
use ch_chaos.Runner.Execute.{execute_scenario}
use ch_chaos.Runner.Metrics.{
  RunnerMetrics, Prometheus, new_metrics, set_active, set_inactive, record_success, record_failure,
  set_targets, observe_duration, value_at, set_at, value_at-set_at,
}
use ch_chaos.Runner.Run.{RunError, Finished, conclude, empty_metrics, report, run}

module _ {F : Type 0} where
  -- the values that a scraper reads for this experiment
  abbrev Reads : String → String → RunnerMetrics F → ℕ → ℕ → ℕ → ℕ → List F → Type 0
  Reads id name m active successes failures targets durations =
      (value_at (id, name) m.injection_active ≡ active)
      × (value_at (name, "success") m.injection_total ≡ successes)
      × (value_at (name, "failure") m.injection_total ≡ failures)
      × (m.targets_affected ≡ targets)
      × (m.injection_duration ≡ durations)

  -- the report on an execution of the scenario
  abbrev pub Reported : String → String → F → Outcome RunnerError ℕ → Finished F → Type 0
  Reported id name elapsed (done n) f =
      (f.outcome ≡ done tt) × Reads id name f.metrics 0 1 0 n (elapsed ∷ [])
  Reported id name elapsed (fail e) f =
      (f.outcome ≡ fail (RunError.scenario e)) × Reads id name f.metrics 0 0 1 0 (elapsed ∷ [])
  Reported id name elapsed panic f = (f.outcome ≡ panic) × Reads id name f.metrics 1 0 0 0 []

  conclude-Reported :
      (id name : String) (elapsed : F) (result : Outcome RunnerError ℕ) (calls : List Call)
      → Reported id name elapsed result
          (conclude id name elapsed (set_active id name empty_metrics) result calls)
  unfolding report set_active set_inactive record_success record_failure set_targets
      observe_duration
  conclude-Reported id name elapsed (done n) calls = (
    refl,
    (
      value_at-set_at (id, name) 0 (set_at (id, name) 1 []),
      rw (str_eq_refl name) refl,
      rw (str_eq_refl name) refl,
      refl,
      refl,
    ),
  )
  conclude-Reported id name elapsed (fail e) calls = (
    refl,
    (
      value_at-set_at (id, name) 0 (set_at (id, name) 1 []),
      rw (str_eq_refl name) refl,
      rw (str_eq_refl name) refl,
      refl,
      refl,
    ),
  )
  conclude-Reported id name elapsed panic calls =
      (refl, (value_at-set_at (id, name) 1 [], refl, refl, refl, refl))

  conclude-calls :
      (id name : String) (elapsed : F) (m : RunnerMetrics F) (result : Outcome RunnerError ℕ)
      (calls : List Call)
      → (conclude id name elapsed m result calls).calls ≡ calls
  conclude-calls id name elapsed m (done n) calls = refl
  conclude-calls id name elapsed m (fail e) calls = refl
  conclude-calls id name elapsed m panic calls = refl

  -- Where the metrics can be created, a run executes its scenario once, with just its calls, and ends as
  -- it ends. Unless that is a panic, the gauge of the experiment then reads 0, exactly one total is
  -- counted, a success or a failure as the scenario ended, the targets are those of a success and 0
  -- otherwise, and the duration is observed once; after a panic the gauge stays at 1.
  pub run-Reported :
      (prom : Prometheus) (effects : Effects) (elapsed : List Call → F) (config : RunnerConfig)
      (log : List Call)
      → new_metrics {F = F} prom ≡ ok empty_metrics
      → let (result, calls) = execute_scenario effects config log in
        let f = run prom effects elapsed config log in
        (f.calls ≡ calls)
        × Reported config.experiment_id (scenario_name config.scenario) (elapsed calls) result f
  unfolding run
  run-Reported prom effects elapsed config log created =
      let (result, calls) = execute_scenario effects config log in
      let id = config.experiment_id in
      let name = scenario_name config.scenario in
      rw created (
        conclude-calls id name (elapsed calls) (set_active id name empty_metrics) result calls,
        conclude-Reported id name (elapsed calls) result calls,
      )
