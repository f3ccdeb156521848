-- ===== src/Runner/Pods.antt =====
-- src/runner/entry.rs: `RealPodClient`, by which the runner of a pod killer deletes pods.
pub mod Deleted
use ch_chaos.Base.{
  ℕ, suc, ◌%◌, ◌^◌, String, Option, none, some, List, [], ◌∷◌, Result, ok, err, Action, pure,
  request, ◌>>=◌, ◌>>◌,
}
use ch_chaos.Errors.{KubeError, RunnerError}
use ch_chaos.Client.{Pod}

pub data Request : Type 0 where
  list_pods delete_pod : String → String → Request

-- `Api<Pod>`: the pods of a namespace by a label selector, and the deletion of one
pub record PodApi : Type 0 where
  pub list_pods : String → String → List Request → Result KubeError (List Pod)
  pub delete_pod : String → String → List Request → Result KubeError (Unit {0})

-- `?` on an answer of the API
abbrev pub runner_error : {A : Type 0} → Result KubeError A → Result RunnerError A
runner_error (ok a) = ok a
runner_error (err e) = err (RunnerError.kube e)

module _ (api : PodApi) where
  -- one turn of the loop: a pod without a name is passed over
  abbrev pub delete_named : String → Option String → ℕ → Action Request RunnerError ℕ
  delete_named namespace none deleted = pure deleted
  delete_named namespace (some name) deleted = do
    request (delete_pod namespace name) (λ log. runner_error (api.delete_pod namespace name log))
    pure (suc deleted % 2 ^ 32)

  unfoldable pub delete_all : String → List Pod → ℕ → Action Request RunnerError ℕ
  delete_all namespace [] deleted = pure deleted
  delete_all namespace (pod ∷ pods) deleted = do
    count ← delete_named namespace pod.metadata.name deleted
    delete_all namespace pods count

  unfoldable pub delete_pods : String → String → Action Request RunnerError ℕ
  unfolding delete_all
  delete_pods namespace label_selector = do
    pods ←
        request (list_pods namespace label_selector)
          (λ log. runner_error (api.list_pods namespace label_selector log))
    delete_all namespace pods 0
