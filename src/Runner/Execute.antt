-- ===== src/Runner/Execute.antt =====
-- src/runner/entry.rs, `execute_scenario`: which scenario runs, with which parameters.
use ch_chaos.Base.{ℕ, raise, lift, request, ◌>>=◌, ◌>>◌}
use ch_chaos.Types.{ScenarioType, pod_killer, cpu_stress, network_delay, edge_delay, edge_abort}
use ch_chaos.Errors.{invalid_config}
use ch_chaos.Runner.{RunnerConfig}
use ch_chaos.Runner.Scenarios.{
  Call, Effects, Op, parse_pod_killer, parse_cpu_stress, parse_network_delay, kill_pods, stress_cpu,
  delay_network,
}

module _ (effects : Effects) where
  abbrev execute : ScenarioType → RunnerConfig → Op ℕ
  unfolding parse_pod_killer parse_cpu_stress parse_network_delay kill_pods stress_cpu delay_network
  execute pod_killer config = do
    (namespace, label_selector) ← lift (parse_pod_killer config.parameters)
    request Call.connect effects.connect
    kill_pods effects (record { namespace = namespace; label_selector = label_selector })
  execute cpu_stress config = do
    (cores, percent) ← lift (parse_cpu_stress config.parameters)
    stress_cpu effects
        (record { cores = cores; percent = percent; duration_secs = config.duration })
  execute network_delay config = do
    (interface, (delay_ms, jitter_ms)) ← lift (parse_network_delay config.parameters)
    delay_network effects (record {
      interface = interface;
      delay_ms = delay_ms;
      jitter_ms = jitter_ms;
      duration_secs = config.duration;
    })
  execute edge_delay config = raise (invalid_config "edge scenarios do not use runner pods")
  execute edge_abort config = raise (invalid_config "edge scenarios do not use runner pods")

  unfoldable pub execute_scenario : RunnerConfig → Op ℕ
  unfolding execute
  execute_scenario config = execute config.scenario config
