-- ===== src/Main/Kills.antt =====
-- A pod killer from end to end: the environment that the operator makes (src/operator/job_builder.rs),
-- the runner mode of src/main.rs, and the real client of the runner (src/runner/entry.rs).
use ch_chaos.Base.{
  ℕ, ◌^◌, ◌<◌, ◌%◌, String, ◌≡◌, refl, ◌∙◌, subst, ap, unwrap_or, Option, none, some, List, [], ◌∷◌,
  ok, done, length,
}
use ch_chaos.Types.{pod_killer, scenario_name}
use ch_chaos.Json.{Value, Members, obj, object, str, find_member, or_insert}
use ch_chaos.JobBuilder.{runner_env_vars}
use ch_chaos.Client.{Pod}
use ch_chaos.Runner.{Environ, RunnerConfig}
use ch_chaos.Runner.Environment.{environ_of, from_env-runner_env_vars}
use ch_chaos.Runner.Scenarios.{Call, Effects}
use ch_chaos.Runner.Execute.{execute_scenario}
use ch_chaos.Runner.Targets.{execute_scenario-targets}
use ch_chaos.Runner.Metrics.{Prometheus, new_metrics, value_at}
use ch_chaos.Runner.Pods.{Request, list_pods, delete_pods}
use ch_chaos.Runner.Pods.Deleted.{pod_names, deletions, delete_pods_lem}
use ch_chaos.Runner.Real.{World, sent, real_effects}
use ch_chaos.Runner.Run.{Finished, empty_metrics, run}
use ch_chaos.Runner.Run.Reported.{Reported, run-Reported}
use ch_chaos.Main.{run_mode}

module _ {F : Type 0} (prom : Prometheus) (elapsed : List Call → F)
    (created : new_metrics {F = F} prom ≡ ok empty_metrics) where
  -- what a run reports of a scenario that succeeded
  abbrev Succeeded : String → String → ℕ → List Call → Finished F → Type 0
  Succeeded id name n calls f =
      (f.outcome ≡ done tt)
      × (f.calls ≡ calls)
      × (f.metrics.targets_affected ≡ n)
      × (value_at (name, "success") f.metrics.injection_total ≡ 1)
      × (value_at (id, name) f.metrics.injection_active ≡ 0)

  run-Succeeded :
      (effects : Effects) (config : RunnerConfig) (n : ℕ) (calls : List Call)
      → execute_scenario effects config [] ≡ (done n, calls)
      → Succeeded config.experiment_id
          (scenario_name config.scenario)
          n
          calls
          (run prom effects elapsed config [])
  run-Succeeded effects config n calls executed =
      let name = scenario_name config.scenario in
      let f = run prom effects elapsed config [] in
      let (made, reported) = run-Reported prom effects elapsed config [] created in
      let (ended, (idle, one, none_failed, targets, durations)) =
        subst (λ r. Reported config.experiment_id name (elapsed r.1) r.0 f) executed reported in
      (ended, made ∙ ap (λ r. r.1) executed, targets, one, idle)

  module _ (world : World) (json_text : Value → String) (from_str : String → Option Value)
      (experiment_id target_ns selector : String) (duration : ℕ) (ms : Members) where
    abbrev params : Value
    params = or_insert (obj ms) "namespace" (str target_ns)

    -- the environment that the operator gives the runner
    abbrev environ : Environ
    environ =
        environ_of (runner_env_vars experiment_id pod_killer duration (some (json_text params)))

    abbrev config : RunnerConfig
    config = record {
      experiment_id = experiment_id;
      scenario = pod_killer;
      duration = duration;
      parameters = unwrap_or (from_str (json_text params)) (object []);
      metrics_port = 9090;
    }

    executed :
        (n : ℕ) (log : List Request)
        → duration < 2 ^ 64
        → find_member ms "namespace" ≡ none
        → find_member ms "labelSelector" ≡ some (str selector)
        → from_str (json_text params) ≡ some params
        → world.try_default [] ≡ ok tt
        → delete_pods world.pods target_ns selector [] ≡ (done n, log)
        → execute_scenario (real_effects world) config []
          ≡ (done n, Call.delete_pods target_ns selector ∷ Call.connect ∷ [])
    unfolding real_effects
    executed n log small unnamed selected read connected deleted =
        let (c, same, ran) =
          execute_scenario-targets (real_effects world) json_text from_str experiment_id target_ns
            selector duration ms [] small unnamed selected read (rw connected refl) in
        let known =
          from_env-runner_env_vars from_str experiment_id pod_killer duration
            (some (json_text params)) small in
        let found : c ≡ config = cc (same, known) in
        subst
          (λ x.
            execute_scenario (real_effects world) x []
            ≡ (done n, Call.delete_pods target_ns selector ∷ Call.connect ∷ []))
          found (ran ∙ rw deleted refl)

    -- Where the metrics can be created, the runner connects, and the API server lists pods and takes
    -- every deletion in the namespace, the parameters' text is read back as it was, and the duration is below
    -- 2^64: the runner mode, in the environment that the operator makes of
    -- parameters with a label selector and no namespace, lists the pods of the target namespace by that
    -- selector, deletes each that has a name, in order, and nothing else; it ends well, and its metrics
    -- then read one success, no injection under way, and as many targets, as a `u32`.
    pub run_mode-kills :
        (pods : List Pod)
        → duration < 2 ^ 64
        → find_member ms "namespace" ≡ none
        → find_member ms "labelSelector" ≡ some (str selector)
        → from_str (json_text params) ≡ some params
        → world.try_default [] ≡ ok tt
        → world.pods.list_pods target_ns selector [] ≡ ok pods
        → ((name : String) (log : List Request) → world.pods.delete_pod target_ns name log ≡ ok tt)
        → let f = run_mode prom (real_effects world) elapsed from_str environ in
          (f.outcome ≡ done tt)
          × (sent world f.calls
              ≡ deletions target_ns (pod_names pods) (list_pods target_ns selector ∷ []))
          × (f.metrics.targets_affected ≡ length (pod_names pods) % 2 ^ 32)
          × (value_at ("PodKiller", "success") f.metrics.injection_total ≡ 1)
          × (value_at (experiment_id, "PodKiller") f.metrics.injection_active ≡ 0)
    unfolding run_mode
    run_mode-kills pods small unnamed selected read connected listed accepted =
        let deleted = delete_pods_lem world.pods target_ns accepted selector pods [] listed in
        let ran = executed _ _ small unnamed selected read connected deleted in
        let known =
          from_env-runner_env_vars from_str experiment_id pod_killer duration
            (some (json_text params)) small in
        let (ended, calls, targets, one, idle) =
          run-Succeeded (real_effects world) config _ _ ran in
        rw known (ended, ap (sent world) calls ∙ ap (λ r. r.1) deleted, targets, one, idle)
