-- ===== src/Runner/Targets.antt =====
-- The pods that the runner of a pod killer deletes (src/runner/entry.rs,
-- src/runner/scenarios/pod_killer.rs).
use text.Mathlib.TextEquality.{eq_iff}
use ch_chaos.Base.{
  ℕ, ◌^◌, ◌<◌, String, ◌≡◌, refl, Option, none, some, List, ◌∷◌, ok, arith, str_eq, false,
}
use ch_chaos.Types.{pod_killer}
use ch_chaos.Json.{Value, Members, obj, end, member, str, find_member, append_member, or_insert}
use ch_chaos.JobBuilder.{runner_env_vars}
use ch_chaos.Runner.{RunnerConfig, from_env}
use ch_chaos.Runner.Environment.{environ_of, from_env-runner_env_vars}
use ch_chaos.Runner.Scenarios.{Call, Effects, parse_pod_killer, kill_pods}
use ch_chaos.Runner.Execute.{execute_scenario}

find_member-append_member :
    (ms : Members) (k : String) (v : Value)
    → find_member ms k ≡ none
    → find_member (append_member ms k v) k ≡ some v
find_member-append_member end k v h = ground (arith, eq_iff k k)
find_member-append_member (member j w ms) k v h =
    ground (arith, h, find_member-append_member ms k v)

find_member-append_other :
    (ms : Members) (k j : String) (v : Value)
    → str_eq k j ≡ false
    → find_member (append_member ms k v) j ≡ find_member ms j
find_member-append_other end k j v ne = ground arith
find_member-append_other (member i w ms) k j v ne =
    ground (arith, find_member-append_other ms k j v ne)

-- The parameters of a pod killer that name a label selector, and no namespace, run in the environment
-- that the operator makes of them: where the runner reads the JSON text of the parameters back and
-- connects, it makes one deletion call, in the namespace that the operator has put into them, with that
-- selector, and ends as this call does.
pub execute_scenario-targets :
    (effects : Effects) (json_text : Value → String) (from_str : String → Option Value)
    (experiment_id target_ns selector : String) (duration : ℕ) (ms : Members) (log : List Call)
    → duration < 2 ^ 64
    → find_member ms "namespace" ≡ none
    → find_member ms "labelSelector" ≡ some (str selector)
    → let params = or_insert (obj ms) "namespace" (str target_ns) in
      from_str (json_text params) ≡ some params
      → effects.connect log ≡ ok tt
      → (config : RunnerConfig) × (from_env from_str (
            environ_of
              (runner_env_vars experiment_id pod_killer duration (some (json_text params))))
          ≡ ok config)
        × (execute_scenario effects config log ≡ (
          effects.delete_pods target_ns selector (Call.connect ∷ log),
          Call.delete_pods target_ns selector ∷ Call.connect ∷ log,
        ))
unfolding execute_scenario kill_pods parse_pod_killer
execute_scenario-targets effects json_text from_str experiment_id target_ns selector duration ms log
      small unnamed selected read connected =
    (
      _,
      from_env-runner_env_vars from_str experiment_id pod_killer duration _ small,
      ground (
        arith,
        unnamed,
        selected,
        read,
        connected,
        find_member-append_member ms "namespace" (str target_ns) unnamed,
        find_member-append_other ms "namespace" "labelSelector" (str target_ns) refl,
      ),
    )
