-- ===== src/Runner/Pods/Deleted.antt =====
-- Which pods the runner of a pod killer deletes (src/runner/entry.rs, `RealPodClient`).
use ch_chaos.Base.{
  ℕ, suc, ◌+◌, ◌%◌, ◌^◌, String, ◌≡◌, Option, none, some, List, [], ◌∷◌, ok, done, arith, length,
  Option-cases, inl, inr,
}
use ch_chaos.Client.{Pod}
use ch_chaos.Runner.Pods.{Request, list_pods, delete_pod, PodApi, delete_all, delete_pods}

abbrev pub named : Option String → List String → List String
named none l = l
named (some name) l = name ∷ l

-- the names of the pods that have one
abbrev pub pod_names : List Pod → List String
pod_names [] = []
pod_names (p ∷ pods) = named p.metadata.name (pod_names pods)

-- the requests after one deletion for each name, in order
abbrev pub deletions : String → List String → List Request → List Request
deletions namespace [] log = log
deletions namespace (name ∷ names) log = deletions namespace names (delete_pod namespace name ∷ log)

module _ (api : PodApi) (namespace : String)
    (accepted : (name : String) (log : List Request)
      → api.delete_pod namespace name log ≡ ok tt) where
  delete_all_lem :
      (pods : List Pod) (count : ℕ) (log : List Request)
      → delete_all api namespace pods (count % 2 ^ 32) log ≡ (
        done ((count + length (pod_names pods)) % 2 ^ 32),
        deletions namespace (pod_names pods) log,
      )
  unfolding delete_all
  delete_all_lem [] count log = ground arith
  delete_all_lem (p ∷ pods) count log = elim (Option-cases p.metadata.name) [
    | inl h ↦ rw h (delete_all_lem pods count log)
    | inr (name, h) ↦
        let wrapped : suc (count % 2 ^ 32) % 2 ^ 32 ≡ suc count % 2 ^ 32 = omega arith in
        let sum : suc count + length (pod_names pods) ≡ count + suc (length (pod_names pods)) =
          omega arith in
        ground (
          arith,
          h,
          accepted name log,
          wrapped,
          sum,
          delete_all_lem pods (suc count) (delete_pod namespace name ∷ log),
        )
  ]

  -- Where the API lists pods and takes every deletion in the namespace, the client makes exactly these
  -- requests: the list with the selector, then one deletion for each listed pod that has a name, in
  -- order; it reports their number, as a `u32`.
  pub delete_pods_lem :
      (selector : String) (pods : List Pod) (log : List Request)
      → api.list_pods namespace selector log ≡ ok pods
      → delete_pods api namespace selector log ≡ (
        done (length (pod_names pods) % 2 ^ 32),
        deletions namespace (pod_names pods) (list_pods namespace selector ∷ log),
      )
  unfolding delete_pods
  delete_pods_lem selector pods log listed =
      ground (arith, listed, delete_all_lem pods 0 (list_pods namespace selector ∷ log))
