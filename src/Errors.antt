-- ===== src/Errors.antt =====
-- src/operator/types.rs: the error types, their texts and the tests on them. Errors of the
-- Kubernetes client and of the JSON library carry the text that their own `Display` gives.
use ch_chaos.Base.{ℕ, String, Bool, false, [], ◌∷◌, Result, ok, err, ◌==◌, format}

pub data ValidationError : Type 0 where
  invalid_duration unknown_scenario no_target_nodes missing_edge_target : ValidationError
  source_service_not_found conflicting_virtual_service : String → ValidationError
  edge_not_found : String → String → ValidationError
  edge_traffic_below_threshold : ValidationError

-- `kube::Error`: an answer of the API server with its status code, or anything else
pub data KubeError : Type 0 where
  api : ℕ → String → KubeError
  other : String → KubeError

pub data OperatorError : Type 0 where
  validation : ValidationError → OperatorError
  kube : KubeError → OperatorError
  prometheus serialization analysis : String → OperatorError

pub data RunnerError : Type 0 where
  execution_failed invalid_config : String → RunnerError
  kube : KubeError → RunnerError
  command : String → RunnerError

abbrev pub validation_text : ValidationError → String
validation_text invalid_duration = "duration must be greater than 0"
validation_text unknown_scenario = "unknown scenario"
validation_text no_target_nodes = "no target nodes found"
validation_text missing_edge_target = "edge target requires sourceService and destinationService"
validation_text (source_service_not_found s) =
    format ("cannot resolve workload labels for source service: " ∷ s ∷ [])
validation_text (conflicting_virtual_service h) =
    format ("conflicting VirtualService exists for host: " ∷ h ∷ [])
validation_text (edge_not_found s d) = format ("target edge not found: " ∷ s ∷ " → " ∷ d ∷ [])
validation_text edge_traffic_below_threshold = "edge traffic below threshold"

abbrev pub kube_text : KubeError → String
kube_text (api code text) = text
kube_text (other text) = text

abbrev pub operator_text : OperatorError → String
operator_text (validation e) = format ("validation error: " ∷ validation_text e ∷ [])
operator_text (OperatorError.kube e) = format ("kubernetes API error: " ∷ kube_text e ∷ [])
operator_text (prometheus s) = format ("prometheus query error: " ∷ s ∷ [])
operator_text (serialization s) = format ("serialization error: " ∷ s ∷ [])
operator_text (analysis s) = format ("analysis error: " ∷ s ∷ [])

abbrev pub runner_text : RunnerError → String
runner_text (execution_failed s) = format ("scenario execution failed: " ∷ s ∷ [])
runner_text (invalid_config s) = format ("invalid configuration: " ∷ s ∷ [])
runner_text (RunnerError.kube e) = format ("kubernetes API error: " ∷ kube_text e ∷ [])
runner_text (command s) = format ("command execution error: " ∷ s ∷ [])

abbrev pub is_not_found : OperatorError → Bool
is_not_found (OperatorError.kube (api code text)) = code == 404
is_not_found _ = false

abbrev pub is_already_exists : OperatorError → Bool
is_already_exists (OperatorError.kube (api code text)) = code == 409
is_already_exists _ = false

-- `ExperimentDuration::new`, on the seconds of the non-zero `u64`
abbrev pub new_duration : ℕ → Result ValidationError ℕ
new_duration ℕ.zero = err invalid_duration
new_duration seconds = ok seconds
