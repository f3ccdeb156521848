-- ===== src/Runner/Real.antt =====
-- The client and the command runner that `execute_scenario` (src/runner/entry.rs) makes its scenarios
-- with: `RealPodClient`, and `SystemCommandRunner` of src/runner/scenarios/cpu_stress.rs.
use ch_chaos.Base.{
  suc, ℤ, pos, negsuc, String, Bool, false, Option, none, some, List, [], ◌∷◌, Result, ok, err,
  if◌then◌else◌, unwrap_or, format, decimal, ◌==◌,
}
use ch_chaos.Errors.{RunnerError, execution_failed, command}
use ch_chaos.Runner.Scenarios.{Call, Effects}
use ch_chaos.Runner.Pods.{Request, PodApi, delete_pods}

-- `std::process::ExitStatus`: the exit code of a process, or its end by a signal
pub data ExitStatus : Type 0 where
  exited : ℤ → ExitStatus
  signalled : ExitStatus

abbrev pub success : ExitStatus → Bool
success (exited (pos n)) = n == 0
success _ = false

abbrev code : ExitStatus → Option ℤ
code (exited n) = some n
code signalled = none

abbrev decimal_ℤ : ℤ → String
decimal_ℤ (pos n) = decimal n
decimal_ℤ (negsuc n) = format ("-" ∷ decimal (suc n) ∷ [])

-- What the runner reaches: the configuration of the cluster's client, the pods, and the programs of its
-- container; errors carry their text.
pub record World : Type 0 where
  pub try_default : List Call → Result String (Unit {0})
  pub pods : PodApi
  pub status : String → List String → List Call → Result String ExitStatus

-- `RealPodClient::new`
abbrev pub new_pod_client : Result String (Unit {0}) → Result RunnerError (Unit {0})
new_pod_client (ok _) = ok tt
new_pod_client (err e) = err (execution_failed (format ("kube client: " ∷ e ∷ [])))

-- `SystemCommandRunner::run`, by how the program ended
unfoldable pub judge_status : String → Result String ExitStatus → Result RunnerError (Unit {0})
judge_status program (err e) = err (command e)
judge_status program (ok status) =
    if success status
    then ok tt
    else err (
        execution_failed (
          format (program ∷ " exited with " ∷ decimal_ℤ (unwrap_or (code status) (negsuc 0)) ∷ [])))

module _ (world : World) where
  -- the requests that the calls of a scenario have sent to the API server
  abbrev pub sent : List Call → List Request
  sent [] = []
  sent (Call.delete_pods namespace selector ∷ l) =
      (delete_pods world.pods namespace selector (sent l)).1
  sent (Call.connect ∷ l) = sent l
  sent (Call.run program args ∷ l) = sent l
  sent (Call.sleep seconds ∷ l) = sent l

  unfoldable pub real_effects : Effects
  unfolding judge_status delete_pods
  real_effects = record {
    connect = λ log. new_pod_client (world.try_default log);
    delete_pods =
        λ namespace selector log. (delete_pods world.pods namespace selector (sent log)).0;
    run = λ program args log. judge_status program (world.status program args log);
  }
