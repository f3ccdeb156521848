-- ===== src/Experiment/Handlers.antt =====
-- src/operator/reconciler.rs: the handlers of a deletion, of a running and of a finished experiment,
-- and the cleanup of VirtualServices.
use ch_chaos.Base.{
  ℕ, String, Bool, true, false, ◌&&◌, Option, none, some, List, [], ◌∷◌, Result, ok, err,
  if◌then◌else◌, str_eq, format, lookup, leb_ℤ, as_i64, pure, raise, attempt, ◌>>=◌, ◌>>◌,
}
use ch_chaos.Types.{Phase, is_edge_chaos, experiment_label}
use ch_chaos.Errors.{OperatorError, is_not_found}
use ch_chaos.Crd.{ChaosExperiment, ChaosExperimentStatus, default_experiment_status}
use ch_chaos.Istio.{is_chaos_managed}
use ch_chaos.Experiment.{
  KubeClient, System, VirtualServiceInfo, exp_name, exp_namespace, target_namespace, current_status,
  all_jobs_succeeded, any_job_failed,
}
use ch_chaos.Experiment.Kube
use ch_chaos.Experiment.Kube.{Op}

-- `labels.get(EXPERIMENT_LABEL).map(|v| v.as_str()) == Some(name)`
abbrev pub names_experiment : Option String → String → Bool
names_experiment none name = false
names_experiment (some v) name = str_eq v name

-- the test of the cleanup loop: a VirtualService of ours, for this experiment
unfoldable pub is_ours : String → VirtualServiceInfo → Bool
is_ours name vs =
    is_chaos_managed vs.labels && names_experiment (lookup experiment_label vs.labels) name

abbrev pub failed_status : String → ChaosExperimentStatus
failed_status message = record default_experiment_status {
  phase = Phase.failed;
  message = some message;
}

-- `if let Err(e) = .. { if !is_not_found(&e) { return Err(e); } }`
abbrev pub unless_found : Result OperatorError (Unit {0}) → Op (Unit {0})
unless_found (ok _) = pure tt
unless_found (err e) = if is_not_found e then pure tt else raise e

module _ (kube : KubeClient) where
  unfoldable pub patch_failed : String → String → String → Op (Unit {0})
  patch_failed ns name message = Kube.patch_experiment_status kube ns name (failed_status message)

  -- `for job_name in &status.runner_jobs { let _ = kube.delete_job(ns, job_name).await; }`
  unfoldable pub delete_jobs : String → List String → Op (Unit {0})
  delete_jobs ns [] = pure tt
  delete_jobs ns (job_name ∷ jobs) = do
    attempt (Kube.delete_job kube ns job_name)
    delete_jobs ns jobs

  unfoldable pub delete_ours : String → String → List VirtualServiceInfo → Op (Unit {0})
  delete_ours target_ns name [] = pure tt
  delete_ours target_ns name (vs ∷ rest) =
      if is_ours name vs
      then (do
        r ← attempt (Kube.delete_virtual_service kube target_ns vs.name)
        unless_found r
        delete_ours target_ns name rest)
      else delete_ours target_ns name rest

  unfoldable pub cleanup_virtual_services : String → String → Op (Unit {0})
  cleanup_virtual_services target_ns name = do
    all_vs ← Kube.list_virtual_services_for_host kube target_ns ""
    delete_ours target_ns name all_vs

  abbrev pub cleanup_edges : ChaosExperiment → Op (Unit {0})
  cleanup_edges experiment =
      cleanup_virtual_services (target_namespace experiment) (exp_name experiment)

  unfoldable pub handle_deletion : ChaosExperiment → Op (Unit {0})
  handle_deletion experiment = do
    let name = exp_name experiment
    let ns = exp_namespace experiment
    delete_jobs ns (current_status experiment).runner_jobs
    if is_edge_chaos experiment.spec.scenario
        then (do attempt (cleanup_edges experiment); Kube.remove_finalizer kube ns name)
        else Kube.remove_finalizer kube ns name

  abbrev pub mark_clean : ChaosExperiment → Op (Unit {0})
  mark_clean experiment =
      Kube.patch_experiment_status kube (exp_namespace experiment) (exp_name experiment)
        (record (current_status experiment) { cleanup_done = true })

  -- A failed cleanup is logged and tried again at the next reconcile.
  abbrev pub mark_if_clean : ChaosExperiment → Result OperatorError (Unit {0}) → Op (Unit {0})
  mark_if_clean experiment (ok _) = mark_clean experiment
  mark_if_clean experiment (err e) = pure tt

  unfoldable pub handle_terminal : ChaosExperiment → Op (Unit {0})
  handle_terminal experiment = if (current_status experiment).cleanup_done then pure tt else (do
    delete_jobs (exp_namespace experiment) (current_status experiment).runner_jobs
    if is_edge_chaos experiment.spec.scenario
        then (do r ← attempt (cleanup_edges experiment); mark_if_clean experiment r)
        else mark_clean experiment)

abbrev pub elapsed_since : {DateTime : Type 0} → System DateTime → Option DateTime → ℕ → Op Bool
elapsed_since sys none duration_secs = pure false
elapsed_since sys (some start) duration_secs = do
  now ← Kube.utc_now sys
  pure (leb_ℤ (as_i64 duration_secs) (sys.seconds_since start now))

unfoldable pub is_duration_elapsed : {DateTime : Type 0} → System DateTime → String → ℕ → Op Bool
is_duration_elapsed sys started_at = elapsed_since sys (sys.parse_from_rfc3339 started_at)

module _ {DateTime : Type 0} (sys : System DateTime) (kube : KubeClient) where
  -- `ChaosExperimentStatus { phase, message, completed_at: Some(now), ..status.clone() }`, patched
  unfoldable pub complete : String → String → ChaosExperimentStatus → Phase → String → Op (Unit {0})
  complete name ns status phase message = do
    now ← Kube.now_rfc3339 sys
    Kube.patch_experiment_status kube ns name
        (record status { phase = phase; message = some message; completed_at = some now })

  -- `if let Some(started_at) = .. { if is_duration_elapsed(..) { patch } } Ok(())`
  abbrev pub complete_if_elapsed :
      String → String → ChaosExperimentStatus → ℕ → String → Option String → Op (Unit {0})
  complete_if_elapsed name ns status duration_secs message none = pure tt
  complete_if_elapsed name ns status duration_secs message (some started_at) = do
    elapsed ← is_duration_elapsed sys started_at duration_secs
    if elapsed then complete name ns status Phase.succeeded message else pure tt

  unfoldable pub handle_running_edge : String → String → ChaosExperimentStatus → ℕ → Op (Unit {0})
  handle_running_edge name ns status duration_secs =
      complete_if_elapsed name ns status duration_secs "Edge chaos duration elapsed"
        status.started_at

  unfoldable pub handle_running_pod : String → String → ChaosExperimentStatus → ℕ → Op (Unit {0})
  handle_running_pod name ns status duration_secs = do
    jobs ← Kube.list_jobs kube ns (format (experiment_label ∷ "=" ∷ name ∷ []))
    if any_job_failed jobs
        then complete name ns status Phase.failed "One or more runner jobs failed"
        else if all_jobs_succeeded jobs
        then complete name ns status Phase.succeeded "All runner jobs completed"
        else complete_if_elapsed name ns status duration_secs "Duration elapsed" status.started_at

  unfoldable pub handle_running : ChaosExperiment → Op (Unit {0})
  handle_running experiment =
      let name = exp_name experiment in
      let ns = exp_namespace experiment in
      let status = current_status experiment in
      if is_edge_chaos experiment.spec.scenario
      then handle_running_edge name ns status experiment.spec.duration
      else handle_running_pod name ns status experiment.spec.duration
