-- ===== src/ImpactMap/Endings.antt =====
-- How a reconcile of an impact map (src/operator/impact_map_reconciler.rs) ends, in each case.
use ch_chaos.Base.{
  ℕ, ◌%◌, ◌^◌, ◌≡◌, ◌⊎◌, inl, inr, refl, sym, subst, String, true, false, none, some, List, [], ◌∷◌,
  Result, ok, err, Outcome, done, fail, panic, settle, format, decimal, length, attempt-request,
  returned, ◌>>=◌, Bool-cases, Option-cases,
}
use ch_chaos.Base.Total.{done->>=}
use ch_chaos.Types.{AnalysisPhase, is_terminal, phase_name}
use ch_chaos.Errors.{OperatorError, operator_text}
use ch_chaos.Crd.{AffectedService, ChaosExperimentStatus, ChaosImpactMap, ChaosImpactMapStatus}
use ch_chaos.Float.{Float}
use ch_chaos.Chrono.{Chrono}
use ch_chaos.ImpactMap.{MetricsSnapshot, compute_affected_services, build_completed_status}
use ch_chaos.ImpactMap.Reconcile.{
  Op, Call, Clients, TimeWindows, check_experiment_readiness, query_all_metrics, map_name,
  map_namespace, experiment_namespace, is_completed, classified, score, assess, with_experiment,
  patch_status, reconcile_impact_map,
}
use ch_chaos.ImpactMap.Times.{fetched, Fetches, Windows, times_known}
use ch_chaos.ImpactMap.Metrics.{Metrics, query_all_metrics-Metrics}
use ch_chaos.ImpactMap.Classes.{Classes, classified-Classes}

module _ {F DateTime TimeDelta : Type 0} (clients : Clients F) (float : Float F)
    (chrono : Chrono DateTime TimeDelta) (m : ChaosImpactMap F) (log : List (Call F)) where
  -- the status without services, written out
  abbrev pub bare : AnalysisPhase → String → ChaosImpactMapStatus F
  bare phase message = record {
    phase = phase;
    summary = none;
    affected_services = [];
    message = some message;
  }

  -- the service that stands first, as the summary names it
  abbrev pub named_first : List (AffectedService F) → String
  named_first [] = ""
  named_first (s ∷ rest) =
      format (" Highest impact: " ∷ s.workload ∷ " (" ∷ decimal s.impact_score ∷ "/100)" ∷ [])

  -- the status with the affected services, of so many scanned, written out
  abbrev pub filled : ℕ → List (AffectedService F) → ChaosImpactMapStatus F
  filled scanned services = record {
    phase = AnalysisPhase.completed;
    summary = some (record {
      total_scanned = scanned;
      total_affected = length services % 2 ^ 32;
      message = some (
          format (
            decimal (length services % 2 ^ 32)
            ∷ " of "
            ∷ decimal scanned
            ∷ " services affected."
            ∷ named_first services
            ∷ []));
    });
    affected_services = services;
    message = none;
  }

  -- the status that is to be written, after these calls
  pub data Report : ChaosImpactMapStatus F → List (Call F) → Type 0 where
    unfetched :
        {x : OperatorError}
        → Fetches clients chrono m log (err x)
        → Report
            (bare AnalysisPhase.failed (
              format (
                "cannot get experiment '"
                ∷ m.spec.experiment_ref.name
                ∷ "': "
                ∷ operator_text x
                ∷ [])))
            (fetched clients chrono m log)
    unready :
        {status : ChaosExperimentStatus}
        → Fetches clients chrono m log (ok status)
        → is_terminal status.phase ≡ false
        → Report
            (bare AnalysisPhase.pending (
              format (
                "Waiting for experiment to complete (phase: "
                ∷ phase_name status.phase
                ∷ ")"
                ∷ [])))
            (fetched clients chrono m log)
    undated :
        {status : ChaosExperimentStatus}
        → Fetches clients chrono m log (ok status)
        → is_terminal status.phase ≡ true
        → (status.started_at ≡ none) ⊎ (status.completed_at ≡ none)
        → Report
            (bare AnalysisPhase.failed "experiment has no startedAt/completedAt")
            (fetched clients chrono m log)
    unmeasured :
        {tw : TimeWindows} {message : String} {calls : List (Call F)}
        → Windows clients chrono m log (done tw)
        → Metrics clients m.spec tw (fetched clients chrono m log) (err message) calls
        → Report (bare AnalysisPhase.failed message) calls
    mapped :
        {tw : TimeWindows} {metrics : MetricsSnapshot F} {calls calls' : List (Call F)}
        {services : List (AffectedService F)}
        → Windows clients chrono m log (done tw)
        → Metrics clients m.spec tw (fetched clients chrono m log) (ok metrics) calls
        → Classes clients m
            (compute_affected_services float metrics m.spec.min_impact).1
            calls
            services
            calls'
        → Report
            (filled (compute_affected_services float metrics m.spec.min_impact).0 services)
            calls'

  -- How the reconcile ends, and with which calls: one status is written last, or the times of the
  -- experiment give an error.
  pub data Ending : Outcome OperatorError (Unit {0}) × List (Call F) → Type 0 where
    reported :
        {status : ChaosImpactMapStatus F} {calls : List (Call F)}
        → Report status calls
        → Ending (
          settle (
              clients.patch_impact_map_status
                (map_namespace clients m)
                (map_name clients m)
                status
                calls),
          Call.patch_impact_map_status (map_namespace clients m) (map_name clients m) status
              ∷ calls,
        )
    untimed :
        {x : OperatorError}
        → Windows clients chrono m log (fail x)
        → Ending (fail x, (fetched clients chrono m log))

  score-Ending :
      (tw : TimeWindows) (r : Result String (MetricsSnapshot F)) (calls : List (Call F))
      → Windows clients chrono m log (done tw)
      → Metrics clients m.spec tw (fetched clients chrono m log) r calls
      → Ending (score clients float chrono m r calls)
  unfolding build_completed_status
  score-Ending tw (err message) calls w e = reported (unmeasured w e)
  score-Ending tw (ok metrics) calls w e =
      let affected = (compute_affected_services float metrics m.spec.min_impact).1 in
      let (services, calls', found, classes) = classified-Classes clients m affected calls in
      subst Ending
        (sym (
          done->>= (classified clients m affected clients.query_service_graph) mapped_as calls
            found))
        (completed services (mapped w e classes))
    where
      mapped_as : List (AffectedService F) → Op clients (Unit {0})
      mapped_as services = patch_status clients m (
          build_completed_status (compute_affected_services float metrics m.spec.min_impact).0
            services)

      completed :
          {calls' : List (Call F)} (services : List (AffectedService F))
          → Report
              (filled (compute_affected_services float metrics m.spec.min_impact).0 services)
              calls'
          → Ending (mapped_as services calls')
      completed [] report = reported report
      completed (s ∷ rest) report = reported report

  measure-Ending :
      (tw : TimeWindows)
      → Windows clients chrono m log (done tw)
      → Ending (
          (query_all_metrics clients m.spec tw >>= score clients float chrono m)
            (fetched clients chrono m log))
  measure-Ending tw w =
      let (r, calls, all, metrics) =
        query_all_metrics-Metrics clients m.spec tw (fetched clients chrono m log) in
      subst Ending
        (sym (
          done->>= (query_all_metrics clients m.spec tw) (score clients float chrono m)
            (fetched clients chrono m log) all))
        (score-Ending tw r calls w metrics)

  timed-Ending :
      (o : Outcome OperatorError TimeWindows)
      → Windows clients chrono m log o
      → Ending (
          (returned o >>= λ tw.
          query_all_metrics clients m.spec tw >>= score clients float chrono m)
            (fetched clients chrono m log))
  timed-Ending (done tw) w = measure-Ending tw w
  timed-Ending (fail x) w = untimed w
  timed-Ending panic w = elim w [ ]

  assess-Ending :
      (status : ChaosExperimentStatus)
      → Fetches clients chrono m log (ok status)
      → Ending (
          assess clients float chrono m
            (check_experiment_readiness status)
            (fetched clients chrono m log))
  unfolding check_experiment_readiness
  assess-Ending status got = elim (Bool-cases (is_terminal status.phase)) [
    | inr going ↦ rw going (reported (unready got going))
    | inl over ↦ elim (Option-cases status.started_at) [
      | inl no_start ↦ rw (over, no_start) (reported (undated got over (inl no_start)))
      | inr (s, started) ↦ elim (Option-cases status.completed_at) [
        | inl no_end ↦ rw (over, started, no_end) (reported (undated got over (inr no_end)))
        | inr (c, ended) ↦
            rw (over, started, ended)
              (timed-Ending _
                (times_known clients chrono m log s c (status, got, over, started, ended)))
      ]
    ]
  ]

  fetched-Ending :
      (r : Result OperatorError ChaosExperimentStatus)
      → Fetches clients chrono m log r
      → Ending (with_experiment clients float chrono m r (fetched clients chrono m log))
  fetched-Ending (err x) got = reported (unfetched got)
  fetched-Ending (ok status) got = assess-Ending status got

  -- However the clients answer, a reconcile of an impact map that is not completed ends without a panic.
  -- Where the experiment is not over, has no times or cannot be read, that is reported; where its times
  -- give no windows, their error is that of the reconcile; else the metrics are queried, and the report is
  -- the failed query, or completed with the affected services of these metrics, classified as far as the
  -- spec and the graph are there. One status is written, as the last call, and its answer is that of the
  -- reconcile.
  pub reconcile_impact_map-Ending :
      is_completed clients m ≡ false → Ending (reconcile_impact_map clients float chrono m log)
  unfolding reconcile_impact_map
  reconcile_impact_map-Ending unfinished = rw unfinished (
      subst Ending
        (sym (
          attempt-request _
            (clients.get_experiment_status (experiment_namespace clients m)
              m.spec.experiment_ref.name)
            (with_experiment clients float chrono m) log))
        (fetched-Ending _ refl))
