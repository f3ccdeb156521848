-- ===== src/Runner/Scenarios.antt =====
-- src/runner/scenarios: the parameters of each scenario, and what it does through the injected client
-- and command runner. Sleeping is a call that always answers.
use ch_chaos.Base.{
  ℕ, ◌%◌, ◌^◌, String, Option, List, [], ◌∷◌, Result, ok, err, ltb, if◌then◌else◌, unwrap_or,
  and_then, ok_or, format, decimal, Action, pure, attempt, request, observe, delegate, Outcome,
  ◌>>◌, ◌==◌,
}
use ch_chaos.Errors.{RunnerError, invalid_config}
use ch_chaos.Json.{Value, get, as_u64, as_str}

pub data Call : Type 0 where
  connect : Call
  delete_pods : String → String → Call
  run : String → List String → Call
  sleep : ℕ → Call

-- `trait PodClient` and `trait CommandRunner`, and the connection to the cluster that a client needs
pub record Effects : Type 0 where
  pub connect : List Call → Result RunnerError (Unit {0})
  pub delete_pods : String → String → List Call → Outcome RunnerError ℕ
  pub run : String → List String → List Call → Result RunnerError (Unit {0})

abbrev pub Op : Type 0 → Type 0
Op A = Action Call RunnerError A

abbrev number : Value → String → ℕ → ℕ
number params key default_value =
    unwrap_or (and_then (get params key) as_u64) default_value % 2 ^ 32

abbrev text : Value → String → Option String
text params key = and_then (get params key) as_str

-- the namespace and the label selector
unfoldable pub parse_pod_killer : Value → Result RunnerError (String × String)
parse_pod_killer params =
    elim (ok_or (text params "labelSelector") (invalid_config "labelSelector is required")) [
      | ok label_selector ↦ ok (unwrap_or (text params "namespace") "default", label_selector)
      | err e ↦ err e
    ]

-- the cores and the load in percent
unfoldable pub parse_cpu_stress : Value → Result RunnerError (ℕ × ℕ)
parse_cpu_stress params =
    let cores = number params "cores" 1 in
    let percent = number params "percent" 80 in
    if cores == 0
    then err (invalid_config "cores must be > 0")
    else if ltb 100 percent
    then err (invalid_config "percent must be 0-100")
    else ok (cores, percent)

-- the interface, the delay and the jitter
unfoldable pub parse_network_delay : Value → Result RunnerError (String × (ℕ × ℕ))
parse_network_delay params =
    elim (ok_or (and_then (get params "delayMs") as_u64) (invalid_config "delayMs is required")) [
      | ok delay ↦
          ok (
            unwrap_or (text params "interface") "eth0",
            (delay % 2 ^ 32, number params "jitterMs" 0),
          )
      | err e ↦ err e
    ]

-- The scenarios, without the client or the command runner that each is made with.
pub record PodKiller : Type 0 where
  pub namespace : String
  pub label_selector : String

pub record CpuStress : Type 0 where
  pub cores : ℕ
  pub percent : ℕ
  pub duration_secs : ℕ

pub record NetworkDelay : Type 0 where
  pub interface : String
  pub delay_ms : ℕ
  pub jitter_ms : ℕ
  pub duration_secs : ℕ

module _ (effects : Effects) where
  abbrev pub command : String → List String → Op (Unit {0})
  command program args = request (Call.run program args) (effects.run program args)

  -- `PodKiller::execute`
  unfoldable pub kill_pods : PodKiller → Op ℕ
  kill_pods self =
      delegate (Call.delete_pods self.namespace self.label_selector)
        (effects.delete_pods self.namespace self.label_selector)

  -- `CpuStress::execute`
  unfoldable pub stress_cpu : CpuStress → Op ℕ
  stress_cpu self = do
    command "stress-ng" (
        "--cpu"
        ∷ decimal self.cores
        ∷ "--cpu-load"
        ∷ decimal self.percent
        ∷ "--timeout"
        ∷ format (decimal self.duration_secs ∷ "s" ∷ [])
        ∷ [])
    pure self.cores

  abbrev pub add_delay : NetworkDelay → List String
  add_delay self =
      "qdisc"
      ∷ "add"
      ∷ "dev"
      ∷ self.interface
      ∷ "root"
      ∷ "netem"
      ∷ "delay"
      ∷ format (decimal self.delay_ms ∷ "ms" ∷ [])
      ∷ format (decimal self.jitter_ms ∷ "ms" ∷ [])
      ∷ []

  abbrev pub remove_delay : NetworkDelay → List String
  remove_delay self = "qdisc" ∷ "del" ∷ "dev" ∷ self.interface ∷ "root" ∷ []

  -- `NetworkDelay::cleanup`
  unfoldable pub cleanup_delay : NetworkDelay → Op (Unit {0})
  cleanup_delay self = do attempt (command "tc" (remove_delay self)); pure tt

  -- `NetworkDelay::execute`
  unfoldable pub delay_network : NetworkDelay → Op ℕ
  unfolding cleanup_delay
  delay_network self = do
    command "tc" (add_delay self)
    observe (Call.sleep self.duration_secs) (λ _. tt)
    cleanup_delay self
    pure 1
