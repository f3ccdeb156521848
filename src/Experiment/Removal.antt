-- ===== src/Experiment/Removal.antt =====
-- The end of an experiment: what is deleted, and when it counts as cleaned up.
use ch_chaos.Base.{
  ◌≢◌, panic, String, ◌≡◌, refl, ◌⊎◌, inl, inr, true, false, List, [], ◌∷◌, Result, ok, err, arith,
  done, settle, All, Any, if◌then◌else◌, Bool-cases, ap, subst,
}
use ch_chaos.Types.{is_edge_chaos}
use ch_chaos.Errors.{OperatorError}
use ch_chaos.Crd.{ChaosExperiment}
use ch_chaos.Experiment.{
  Call, KubeClient, VirtualServiceInfo, exp_name, exp_namespace, target_namespace, current_status,
}
use ch_chaos.Experiment.Handlers.{
  is_ours, delete_jobs, delete_ours, unless_found, cleanup_virtual_services, cleanup_edges,
  handle_deletion, handle_terminal,
}

-- The log after one deletion call for each name, in order.
abbrev pub jobs_deleted : String → List String → List Call → List Call
jobs_deleted ns [] log = log
jobs_deleted ns (j ∷ js) log = jobs_deleted ns js (Call.delete_job ns j ∷ log)

-- The log holds this call.
abbrev pub Called : Call → List Call → Type 0
Called c log = Any (λ d. d ≡ c) log

module _ (kube : KubeClient) where
  -- Whatever the deletions answer, there is one for each Job, and the loop succeeds.
  pub delete_jobs_lem :
      (ns : String) (names : List String) (log : List Call)
      → delete_jobs kube ns names log ≡ (done tt, jobs_deleted ns names log)
  unfolding delete_jobs
  delete_jobs_lem ns [] log = refl
  delete_jobs_lem ns (n ∷ names) log =
      ground (arith, delete_jobs_lem ns names (Call.delete_job ns n ∷ log))

module _ (kube : KubeClient) (ns name : String) where
  unless_found-keeps :
      (r : Result OperatorError (Unit {0})) (log : List Call) → (unless_found r log).1 ≡ log
  unless_found-keeps (ok _) log = refl
  unless_found-keeps (err x) log = ground arith

  delete_ours-keeps :
      (c : Call) (vss : List VirtualServiceInfo) (log : List Call)
      → Called c log
      → Called c (delete_ours kube ns name vss log).1
  unfolding delete_ours
  delete_ours-keeps c [] log h = h
  delete_ours-keeps c (vs ∷ vss) log h = ground (
    arith,
    delete_ours-keeps c vss log h,
    delete_ours-keeps c vss (Call.delete_virtual_service ns vs.name ∷ log) (inr h),
  )

  delete_ours-ne-panic :
      (vss : List VirtualServiceInfo) (log : List Call)
      → (delete_ours kube ns name vss log).0 ≢ panic
  unfolding delete_ours
  delete_ours-ne-panic [] log = ground arith
  delete_ours-ne-panic (vs ∷ vss) log = ground (
    arith,
    delete_ours-ne-panic vss log,
    delete_ours-ne-panic vss (Call.delete_virtual_service ns vs.name ∷ log),
  )

  delete_ours_complete :
      (vss : List VirtualServiceInfo) (log end : List Call)
      → delete_ours kube ns name vss log ≡ (done tt, end)
      → All (λ vs. is_ours name vs ≡ true → Called (Call.delete_virtual_service ns vs.name) end) vss
  unfolding delete_ours
  delete_ours_complete [] log end h = tt
  delete_ours_complete (vs ∷ vss) log end h = elim (Bool-cases (is_ours name vs)) [
    | inl ours ↦
        let call = Call.delete_virtual_service ns vs.name in
        let rest : delete_ours kube ns name vss (call ∷ log) ≡ (done tt, end) =
          ground (arith, h, ours) in
        (
          λ _.
              subst (Called call) (ap (λ r. r.1) rest)
                (delete_ours-keeps call vss (call ∷ log) (inl refl)),
          delete_ours_complete vss (call ∷ log) end rest,
        )
    | inr foreign ↦
        let rest : delete_ours kube ns name vss log ≡ (done tt, end) = ground (arith, h, foreign) in
        (λ ours. cc (ours, foreign), delete_ours_complete vss log end rest)
  ]

  -- If the cleanup of an experiment's VirtualServices succeeds, the client has listed the
  -- VirtualServices of the namespace, and each one listed that is the operator's own for this
  -- experiment has had its deletion requested.
  pub cleanup_complete :
      (log end : List Call)
      → cleanup_virtual_services kube ns name log ≡ (done tt, end)
      → (vss : List VirtualServiceInfo) × (kube.list_virtual_services_for_host ns "" log ≡ ok vss)
        × All
            (λ vs. is_ours name vs ≡ true → Called (Call.delete_virtual_service ns vs.name) end)
            vss
  unfolding cleanup_virtual_services
  cleanup_complete log end h = listed (kube.list_virtual_services_for_host ns "" log) refl
    where
      start : List Call
      start = Call.list_virtual_services_for_host ns "" ∷ log

      listed :
          (r : Result OperatorError (List VirtualServiceInfo))
          → kube.list_virtual_services_for_host ns "" log ≡ r
          → (vss : List VirtualServiceInfo) × (kube.list_virtual_services_for_host ns "" log
              ≡ ok vss)
            × All
                (λ vs. is_ours name vs ≡ true → Called (Call.delete_virtual_service ns vs.name) end)
                vss
      listed (ok vss) e = (vss, e, delete_ours_complete vss start end (ground (arith, h, e)))
      listed (err x) e = ground (arith, h, e)

  cleanup-ne-panic : (log : List Call) → (cleanup_virtual_services kube ns name log).0 ≢ panic
  unfolding cleanup_virtual_services
  cleanup-ne-panic log = listed (kube.list_virtual_services_for_host ns "" log) refl
    where
      start : List Call
      start = Call.list_virtual_services_for_host ns "" ∷ log

      listed :
          (r : Result OperatorError (List VirtualServiceInfo))
          → kube.list_virtual_services_for_host ns "" log ≡ r
          → (cleanup_virtual_services kube ns name log).0 ≢ panic
      listed (ok vss) e = ground (arith, e, delete_ours-ne-panic vss start)
      listed (err x) e = ground (arith, e)

module _ (kube : KubeClient) (e : ChaosExperiment) where
  -- The log of a deletion before the finalizer is removed.
  abbrev pub dismantled : List Call → List Call
  dismantled log =
      let l = jobs_deleted (exp_namespace e) (current_status e).runner_jobs log in
      if is_edge_chaos e.spec.scenario then (cleanup_edges kube e l).1 else l

  -- A deletion ends with the removal of the finalizer and with that call's answer, after one deletion
  -- of each recorded Job and, for edge chaos, the cleanup of the VirtualServices, however any of these
  -- calls fail: a failing cluster cannot make the deletion of an experiment hang.
  pub handle_deletion-releases :
      (log : List Call)
      → handle_deletion kube e log ≡ (
        settle (kube.remove_finalizer (exp_namespace e) (exp_name e) (dismantled log)),
        Call.remove_finalizer (exp_namespace e) (exp_name e) ∷ dismantled log,
      )
  unfolding handle_deletion
  handle_deletion-releases log =
      let l = jobs_deleted (exp_namespace e) (current_status e).runner_jobs log in
      ground (
        arith,
        delete_jobs_lem kube (exp_namespace e) (current_status e).runner_jobs log,
        cleanup-ne-panic kube (target_namespace e) (exp_name e) l,
      )

  -- A finished experiment that is not marked clean yet: after one deletion of each recorded Job and,
  -- for edge chaos, the cleanup of the VirtualServices, its status is written once, with
  -- `cleanup_done` set and all else kept, if it is no edge chaos or the cleanup succeeded; after a
  -- cleanup that failed nothing is written, and the handler succeeds, so that it is tried again.
  pub handle_terminal-marks :
      (log : List Call)
      → (current_status e).cleanup_done ≡ false
      → let l = dismantled log in
        let clean = record (current_status e) { cleanup_done = true } in
        let before = jobs_deleted (exp_namespace e) (current_status e).runner_jobs log in
        ((is_edge_chaos e.spec.scenario ≡ false) ⊎ ((cleanup_edges kube e before).0 ≡ done tt)
          → handle_terminal kube e log ≡ (
            settle (kube.patch_experiment_status (exp_namespace e) (exp_name e) clean l),
            Call.patch_experiment_status (exp_namespace e) (exp_name e) clean ∷ l,
          ))
        × ((is_edge_chaos e.spec.scenario ≡ true) × ((cleanup_edges kube e before).0 ≢ done tt)
            → handle_terminal kube e log ≡ (done tt, l))
  unfolding handle_terminal
  handle_terminal-marks log dirty =
      let l = jobs_deleted (exp_namespace e) (current_status e).runner_jobs log in
      ground (
        arith,
        delete_jobs_lem kube (exp_namespace e) (current_status e).runner_jobs log,
        cleanup-ne-panic kube (target_namespace e) (exp_name e) l,
      )
