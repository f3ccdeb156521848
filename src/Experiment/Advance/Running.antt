-- ===== src/Experiment/Advance/Running.antt =====
-- `handle_running` and `handle_terminal` (src/operator/reconciler.rs): when they leave the experiment.
use ch_chaos.Base.{
  ◌≡◌, refl, ◌⊎◌, inl, inr, Bool, true, false, String, Option, none, some, List, Result, ok, err,
  pure, attempt, Outcome, done, fail, panic, caught, settle-done, as_i64, leb_ℤ, format, [], ◌∷◌,
  if◌then◌else◌,
}
use ch_chaos.Types.{experiment_label, Phase, is_edge_chaos, is_terminal}
use ch_chaos.Errors.{OperatorError}
use ch_chaos.Objects.{Job}
use ch_chaos.Crd.{ChaosExperiment, ChaosExperimentStatus}
use ch_chaos.Experiment.{
  Call, KubeClient, System, exp_name, exp_namespace, current_status, any_job_failed,
  all_jobs_succeeded,
}
use ch_chaos.Experiment.Kube
use ch_chaos.Experiment.Kube.{Op}
use ch_chaos.Experiment.Handlers.{
  complete, complete_if_elapsed, elapsed_since, is_duration_elapsed, handle_running,
  handle_running_edge, handle_running_pod, handle_terminal, delete_jobs, cleanup_edges,
  mark_if_clean,
}
use ch_chaos.Experiment.Advance.{
  IsBusy, IsUnexpired, no_start, unreadable, early, Idle, settled, dirty, under_way, Reports,
  >>=-Reports, ended->>=, patch-Reports, idle-Reports, if-Reports,
}

module _ {DateTime : Type 0} (sys : System DateTime) (kube : KubeClient) (e : ChaosExperiment) where
  abbrev I : Type 0
  I = Idle sys kube e

  module _ (running : (current_status e).phase ≡ Phase.running) where
    complete-Reports :
        (name ns : String) (status : ChaosExperimentStatus) (phase : Phase) (message : String)
        → Reports I (complete sys kube name ns status phase message)
    unfolding complete
    complete-Reports name ns status phase message = >>=-Reports I (Kube.now_rfc3339 sys) _ λ now.
        patch-Reports I kube ns name
          (record status { phase = phase; message = some message; completed_at = some now })

    module _ (busy : (is_edge_chaos e.spec.scenario ≡ true) ⊎ IsBusy sys kube e)
        (message : String) where
      given_time :
          (o : Option DateTime) (b : Bool) (log : List Call)
          → (elapsed_since sys o e.spec.duration log).0 ≡ done b
          → b ≡ false
          → (o ≡ none)
            ⊎ ((start : DateTime) × (o ≡ some start)
                × (leb_ℤ (as_i64 e.spec.duration) (sys.seconds_since start (sys.now log)) ≡ false))
      given_time none b log h k = inl refl
      given_time (some start) b log h k = inr (start, refl, cc (h, k))

      unexpired :
          (started_at : String) (b : Bool) (log : List Call)
          → (current_status e).started_at ≡ some started_at
          → (is_duration_elapsed sys started_at e.spec.duration log).0 ≡ done b
          → b ≡ false
          → IsUnexpired sys kube e
      unfolding is_duration_elapsed
      unexpired started_at b log has h k =
          elim (given_time (sys.parse_from_rfc3339 started_at) b log h k) [
            | inl missing ↦ unreadable has missing
            | inr (start, parsed, less) ↦ early log has parsed less
          ]

      abbrev if_over : Bool → Op (Unit {0})
      if_over elapsed =
          if elapsed
          then complete sys kube (exp_name e) (exp_namespace e) (current_status e) Phase.succeeded
              message
          else pure tt

      if_elapsed-Reports :
          (o : Option String)
          → (current_status e).started_at ≡ o
          → Reports I (
              complete_if_elapsed sys kube
                (exp_name e)
                (exp_namespace e)
                (current_status e)
                e.spec.duration
                message
                o)
      if_elapsed-Reports none has = idle-Reports I _ (under_way running busy (no_start has))
      if_elapsed-Reports (some started_at) has =
          ended->>= I (is_duration_elapsed sys started_at e.spec.duration) if_over λ elapsed log h.
            if-Reports I elapsed _ _ (λ _. complete-Reports _ _ _ _ _)
              (λ less.
                idle-Reports I _
                  (under_way running busy (unexpired started_at elapsed log has h less)))

    abbrev jobs_selector : String
    jobs_selector = format (experiment_label ∷ "=" ∷ exp_name e ∷ [])

    abbrev by_jobs : List Job → Op (Unit {0})
    by_jobs jobs =
        if any_job_failed jobs
        then complete sys kube (exp_name e) (exp_namespace e) (current_status e) Phase.failed
            "One or more runner jobs failed"
        else if all_jobs_succeeded jobs
        then complete sys kube (exp_name e) (exp_namespace e) (current_status e) Phase.succeeded
            "All runner jobs completed"
        else complete_if_elapsed sys kube (exp_name e) (exp_namespace e) (current_status e)
            e.spec.duration "Duration elapsed" (current_status e).started_at

    pub running-Reports : Reports I (handle_running sys kube e)
    unfolding handle_running handle_running_edge handle_running_pod
    running-Reports =
        if-Reports I (is_edge_chaos e.spec.scenario) _ _
          (λ edge. if_elapsed-Reports (inl edge) _ (current_status e).started_at refl)
          λ _.
            ended->>= I (Kube.list_jobs kube (exp_namespace e) jobs_selector) by_jobs λ jobs log h.
              if-Reports I (any_job_failed jobs) _ _ (λ _. complete-Reports _ _ _ _ _)
                λ none_failed.
                  if-Reports I (all_jobs_succeeded jobs) _ _ (λ _. complete-Reports _ _ _ _ _)
                    λ not_all.
                      if_elapsed-Reports
                        (inr (
                          jobs_selector,
                          log,
                          jobs,
                          settle-done (kube.list_jobs (exp_namespace e) jobs_selector log) jobs h,
                          none_failed,
                          not_all,
                        ))
                        _ (current_status e).started_at refl

  caught-err :
      (r : Outcome OperatorError (Unit {0})) (x : OperatorError)
      → caught r ≡ done (err x)
      → r ≡ fail x
  caught-err (done a) x h = cc h
  caught-err (fail y) x h = cc h
  caught-err panic x h = cc h

  module _ (over : is_terminal (current_status e).phase ≡ true) where
    mark_if_clean-Reports :
        (r : Result OperatorError (Unit {0})) (log : List Call)
        → caught (cleanup_edges kube e log).0 ≡ done r
        → Reports I (mark_if_clean kube e r)
    mark_if_clean-Reports (ok _) log h =
        patch-Reports I kube _ _ (record (current_status e) { cleanup_done = true })
    mark_if_clean-Reports (err x) log h = idle-Reports I _ (dirty log over (caught-err _ x h))

    pub terminal-Reports : Reports I (handle_terminal kube e)
    unfolding handle_terminal
    terminal-Reports =
        if-Reports I (current_status e).cleanup_done _ _
          (λ clean. idle-Reports I _ (settled over clean))
          λ _.
            >>=-Reports I (delete_jobs kube (exp_namespace e) (current_status e).runner_jobs) _ λ _.
              if-Reports I (is_edge_chaos e.spec.scenario) _ _
                (λ _.
                  ended->>= I (attempt (cleanup_edges kube e)) (mark_if_clean kube e)
                    mark_if_clean-Reports)
                (λ _. patch-Reports I kube _ _ (record (current_status e) { cleanup_done = true }))
