-- ===== src/Experiment/Guard/Cleanup.antt =====
-- The calls of `handle_deletion` and `handle_terminal` (src/operator/reconciler.rs).
use ch_chaos.Base.{
  String, ◌≡◌, refl, inl, inr, true, false, List, [], ◌∷◌, Result, ok, err, Any, attempt,
}
use ch_chaos.Types.{is_edge_chaos, is_terminal}
use ch_chaos.Errors.{OperatorError, is_not_found}
use ch_chaos.Crd.{ChaosExperiment, ChaosExperimentStatus}
use ch_chaos.Trace.{
  Emits, >>=-Emits, request->>=, if-Emits, pure-Emits, raise-Emits, request-Emits, attempt-Emits,
}
use ch_chaos.Experiment.{
  Call, KubeClient, VirtualServiceInfo, needs_finalizer, is_being_deleted, exp_name, exp_namespace,
  target_namespace, current_status,
}
use ch_chaos.Experiment.Kube
use ch_chaos.Experiment.Kube.{Op}
use ch_chaos.Experiment.Handlers.{
  is_ours, unless_found, delete_jobs, delete_ours, cleanup_virtual_services, handle_deletion,
  handle_terminal, mark_clean, mark_if_clean,
}
use ch_chaos.Experiment.Guard.{IsLegal, cleaned, IsListed, IsOver, Allowed}

module _ (kube : KubeClient) (e : ChaosExperiment) where
  abbrev P : Call → Type 0
  P = Allowed kube e

  -- deleting a part of the recorded Jobs
  delete_jobs-Allowed :
      (names : List String)
      → IsOver e
      → ((name : String)
          → Any (λ j. j ≡ name) names
          → Any (λ j. j ≡ name) (current_status e).runner_jobs)
      → Emits P (delete_jobs kube (exp_namespace e) names)
  unfolding delete_jobs
  delete_jobs-Allowed [] over sub = pure-Emits P tt
  delete_jobs-Allowed (n ∷ names) over sub =
      >>=-Emits P (attempt (Kube.delete_job kube (exp_namespace e) n)) _
        (attempt-Emits P _ (request-Emits P _ _ (over, refl, sub n (inl refl))))
        (λ _. delete_jobs-Allowed names over (λ m h. sub m (inr h)))

  abbrev Kept : List VirtualServiceInfo → String → Type 0
  Kept vss name = Any (λ vs. (vs.name ≡ name) × (is_ours (exp_name e) vs ≡ true)) vss

  delete_ours-Allowed :
      (vss : List VirtualServiceInfo)
      → IsOver e
      → ((name : String) → Kept vss name → IsListed kube e name)
      → Emits P (delete_ours kube (target_namespace e) (exp_name e) vss)
  unfolding delete_ours
  delete_ours-Allowed [] over sub = pure-Emits P tt
  delete_ours-Allowed (vs ∷ vss) over sub =
      if-Emits P (is_ours (exp_name e) vs) _ _
        (λ ours.
          >>=-Emits P (attempt (Kube.delete_virtual_service kube (target_namespace e) vs.name)) _
            (attempt-Emits P _ (request-Emits P _ _ (over, refl, sub vs.name (inl (refl, ours)))))
            λ r.
              >>=-Emits P _ _ (unless_found-Allowed r)
                (λ _. delete_ours-Allowed vss over (λ m h. sub m (inr h))))
        (λ _. delete_ours-Allowed vss over (λ m h. sub m (inr h)))
    where
      unless_found-Allowed : (r : Result OperatorError (Unit {0})) → Emits P (unless_found r)
      unless_found-Allowed (ok _) = pure-Emits P tt
      unless_found-Allowed (err x) =
          if-Emits P (is_not_found x) _ _ (λ _. pure-Emits P tt) (λ _. raise-Emits P x)

  cleanup-Allowed :
      IsOver e → Emits P (cleanup_virtual_services kube (target_namespace e) (exp_name e))
  unfolding cleanup_virtual_services
  cleanup-Allowed over =
      request->>= P _ _ _ tt
        λ vss log answer. delete_ours-Allowed vss over (λ name h. (log, vss, answer, h))

  pub deletion-Allowed : is_being_deleted e ≡ true → Emits P (handle_deletion kube e)
  unfolding handle_deletion
  deletion-Allowed deleted = >>=-Emits P _ _ (delete_jobs-Allowed _ (inl deleted) (λ _ h. h)) λ _.
      if-Emits P (is_edge_chaos e.spec.scenario) _ _
        (λ _. >>=-Emits P _ _ (attempt-Emits P _ (cleanup-Allowed (inl deleted))) (λ _. release))
        (λ _. release)
    where
      release : Emits P (Kube.remove_finalizer kube (exp_namespace e) (exp_name e))
      release = request-Emits P _ _ (deleted, refl, refl)

  module _ (protected : needs_finalizer e ≡ false) (alive : is_being_deleted e ≡ false) where
    pub patch-Allowed :
        (status : ChaosExperimentStatus)
        → IsLegal (current_status e) status
        → Emits P (Kube.patch_experiment_status kube (exp_namespace e) (exp_name e) status)
    patch-Allowed status legal = request-Emits P _ _ (protected, alive, refl, refl, legal)

    mark-Allowed :
        is_terminal (current_status e).phase ≡ true
        → (current_status e).cleanup_done ≡ false
        → Emits P (mark_clean kube e)
    mark-Allowed over dirty = patch-Allowed _ (cleaned over dirty refl)

    pub terminal-Allowed :
        is_terminal (current_status e).phase ≡ true → Emits P (handle_terminal kube e)
    unfolding handle_terminal
    terminal-Allowed over =
        if-Emits P (current_status e).cleanup_done _ _ (λ _. pure-Emits P tt)
          λ dirty. >>=-Emits P _ _ (delete_jobs-Allowed _ (inr over) (λ _ h. h)) λ _.
            if-Emits P (is_edge_chaos e.spec.scenario) _ _
              (λ _.
                >>=-Emits P _ (mark_if_clean kube e)
                  (attempt-Emits P _ (cleanup-Allowed (inr over))) (when_clean dirty))
              (λ _. mark-Allowed over dirty)
      where
        when_clean :
            (current_status e).cleanup_done ≡ false
            → (r : Result OperatorError (Unit {0})) → Emits P (mark_if_clean kube e r)
        when_clean dirty (ok _) = mark-Allowed over dirty
        when_clean dirty (err x) = pure-Emits P tt
