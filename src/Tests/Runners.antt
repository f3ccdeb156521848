-- ===== src/Tests/Runners.antt =====
-- The runner on concrete inputs.
use ch_chaos.Base.{
  List, pos, err, ℕ, String, ◌≡◌, refl, none, some, [], ◌∷◌, ok, done, arith, decimal,
}
use ch_chaos.Types.{pod_killer, cpu_stress}
use ch_chaos.Json.{Value, Members, end, member, obj, str, object, or_insert}
use ch_chaos.JobBuilder.{runner_env_vars, default_meta}
use ch_chaos.Client.{Pod}
use ch_chaos.Runner.{RunnerConfig, from_env}
use ch_chaos.Runner.Environment.{environ_of, from_env-runner_env_vars}
use ch_chaos.Runner.Scenarios.{Effects}
use ch_chaos.Runner.Execute.{execute_scenario}
use ch_chaos.Runner.Metrics.{Prometheus, new_metrics}
use ch_chaos.Runner.Run.{empty_metrics, run}
use ch_chaos.Runner.Run.Reported.{Reported, run-Reported}
use ch_chaos.Errors.{execution_failed}
use ch_chaos.Main.{run_mode}
use ch_chaos.Main.Kills.{run_mode-kills}
use ch_chaos.Runner.Metrics.{value_at}
use ch_chaos.Runner.Pods.{Request}
use ch_chaos.Runner.Real.{World, exited, signalled, sent, real_effects, judge_status}

abbrev effects : Effects
effects = record { connect = λ _. ok tt; delete_pods = λ _ _ _. done 3; run = λ _ _ _. ok tt }

from_env-runner_env_vars_example :
    from_env (λ _. none) (environ_of (runner_env_vars "12345678-abcd" cpu_stress 60 none))
    ≡ ok (record {
      experiment_id = "12345678-abcd";
      scenario = cpu_stress;
      duration = 60;
      parameters = object [];
      metrics_port = 9090;
    })
from_env-runner_env_vars_example =
    from_env-runner_env_vars (λ _. none) "12345678-abcd" cpu_stress 60 none (omega arith)

abbrev selected : Members
selected = member "labelSelector" (str "app=cart") end

-- these parameters as the operator passes them on
abbrev passed : Value
passed = or_insert (obj selected) "namespace" (str "shop")

abbrev prometheus : Prometheus
prometheus = record {
  gauge_vec = λ _ _. ok tt;
  int_counter_vec = λ _ _. ok tt;
  gauge = λ _. ok tt;
  histogram = λ _. ok tt;
  register = λ _. ok tt;
}

abbrev killing : RunnerConfig
killing = record {
  experiment_id = "12345678-abcd";
  scenario = pod_killer;
  duration = 60;
  parameters = passed;
  metrics_port = 9090;
}

created_metrics : new_metrics {F = ℕ} prometheus ≡ ok empty_metrics
unfolding new_metrics
created_metrics = refl

run-Reported_example :
    let f = run {F = ℕ} prometheus effects (λ _. 7) killing [] in
    let (result, calls) = execute_scenario effects killing [] in
    (f.calls ≡ calls) × Reported "12345678-abcd" "PodKiller" 7 result f
run-Reported_example = run-Reported {F = ℕ} prometheus effects (λ _. 7) killing [] created_metrics

-- a namespace with two pods that have names
abbrev named_pod : String → Pod
named_pod name = record { metadata = record default_meta { name = some name }; spec = none }

abbrev listed_pods : List Pod
listed_pods =
    named_pod "cart-1" ∷ record { metadata = default_meta; spec = none } ∷ named_pod "cart-2" ∷ []

-- a runner that connects, in a namespace where all pods may be deleted
abbrev world : World
world = record {
  try_default = λ _. ok tt;
  pods = record { list_pods = λ _ _ _. ok listed_pods; delete_pod = λ _ _ _. ok tt };
  status = λ _ _ _. ok (exited (pos 0));
}

run_mode-kills_example :
    let f =
      run_mode {F = ℕ} prometheus
        (real_effects world)
        (λ _. 7)
        (λ _. some passed)
        (environ_of (runner_env_vars "12345678-abcd" pod_killer 60 (some "{..}"))) in
    (f.outcome ≡ done tt)
    × (sent world f.calls
        ≡ Request.delete_pod "shop" "cart-2"
          ∷ Request.delete_pod "shop" "cart-1"
          ∷ Request.list_pods "shop" "app=cart"
          ∷ [])
    × (f.metrics.targets_affected ≡ 2)
    × (value_at ("PodKiller", "success") f.metrics.injection_total ≡ 1)
    × (value_at ("12345678-abcd", "PodKiller") f.metrics.injection_active ≡ 0)
run_mode-kills_example =
    run_mode-kills {F = ℕ} prometheus (λ _. 7) created_metrics world (λ _. "{..}")
      (λ _. some passed) "12345678-abcd" "shop" "app=cart" 60 selected listed_pods (omega arith)
      refl refl refl refl refl (λ _ _. refl)

-- how a program's end is judged
failed_command : judge_status "tc" (ok (exited (pos 2))) ≡ err (execution_failed "tc exited with 2")
unfolding judge_status decimal
failed_command = refl

killed_command : judge_status "tc" (ok signalled) ≡ err (execution_failed "tc exited with -1")
unfolding judge_status decimal
killed_command = refl
