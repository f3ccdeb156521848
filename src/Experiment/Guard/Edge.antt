-- ===== src/Experiment/Guard/Edge.antt =====
-- The calls of `handle_pending_edge` (src/operator/reconciler.rs).
use ch_chaos.Base.{
  ◌≡◌, refl, true, false, String, Option, none, some, List, [], ◌∷◌, Result, ok, err, is_empty,
  if◌then◌else◌, ◌>>=◌, or_panic, ok_or,
}
use ch_chaos.Types.{Phase, is_edge_chaos, EdgeTarget}
use ch_chaos.Errors.{
  OperatorError, validation, missing_edge_target, validation_text, conflicting_virtual_service,
}
use ch_chaos.Json.{Value}
use ch_chaos.Objects.{Labels}
use ch_chaos.Crd.{ChaosExperiment}
use ch_chaos.Trace.{
  Emits, >>=-Emits, if-Emits, pure-Emits, request-Emits, request->>=, lift->>=, attempt-request->>=,
  attempt-Emits, same,
}
use ch_chaos.Istio.{fqdn, build_fault_for_scenario}
use ch_chaos.Experiment.{
  VirtualServiceInfo, Call, KubeClient, EdgeResolver, System, needs_finalizer, is_being_deleted,
  target_namespace, validate_experiment, current_status, edge_of,
}
use ch_chaos.Experiment.Kube
use ch_chaos.Experiment.Kube.{Op}
use ch_chaos.Experiment.Pending.{
  unless_exists, parameters_of, has_conflict, refuse, create_edge, edge_service, edge_message,
  resolve, inject_resolved, inject_edge, with_labels, handle_pending_edge,
}
use ch_chaos.Experiment.Guard.{Allowed, IsClear}
use ch_chaos.Experiment.Guard.Start.{
  refuse-Allowed, start-Allowed, unless_exists-Allowed, may_inject,
}

module _ {DateTime : Type 0} (sys : System DateTime) (kube : KubeClient) (e : ChaosExperiment)
    (protected : needs_finalizer e ≡ false) (alive : is_being_deleted e ≡ false)
    (pending : (current_status e).phase ≡ Phase.pending) where
  abbrev P : Call → Type 0
  P = Allowed kube e

  is_given :
      (o : Option EdgeTarget) (target : EdgeTarget)
      → ok_or o (validation missing_edge_target) ≡ ok target
      → o ≡ some target
  is_given none target h = cc h
  is_given (some t) target h = cc h

  module _ (valid : validate_experiment e.spec ≡ ok tt) where
    module _ (edge : is_edge_chaos e.spec.scenario ≡ true) where
      create_edge-Allowed :
          (eid : String) (target : EdgeTarget) (labels : Labels) (host : String)
          (fault : Option Value)
          → IsClear kube e
          → Emits P (create_edge sys kube e eid target labels host fault)
      create_edge-Allowed eid target labels host none clear =
          refuse-Allowed sys kube e protected alive pending _
      create_edge-Allowed eid target labels host (some fault) clear =
          >>=-Emits P (or_panic _) _ (record { run = λ log. same })
            λ vs_name.
              >>=-Emits P _ _
                (attempt-Emits P
                  (Kube.create_virtual_service kube (target_namespace e)
                    (edge_service sys kube e labels host fault vs_name))
                  (request-Emits P _ _
                    ((may_inject sys kube e protected alive pending valid), edge, refl, clear)))
                λ r.
                  >>=-Emits P (unless_exists r) _
                    (unless_exists-Allowed sys kube e protected alive pending r)
                    (λ _.
                      start-Allowed sys kube e protected alive pending
                        (edge_message sys kube e target) eid [])

      module _ {F : Type 0} (resolver : Option (EdgeResolver F)) where
        resolve-Allowed :
            (o : Option (EdgeResolver F)) (target : EdgeTarget) (ns : String)
            → Emits P (resolve sys kube o target ns)
        resolve-Allowed none target ns = pure-Emits P (ok tt)
        resolve-Allowed (some r) target ns =
            attempt-Emits P _
              (>>=-Emits P _ (λ _ log. _) (request-Emits P _ _ tt) (λ _. pure-Emits P tt))

        resolved-Allowed :
            (eid : String) (target : EdgeTarget) (labels : Labels) (host : String)
            → IsClear kube e
            → (r : Result OperatorError (Unit {0}))
            → Emits P (inject_resolved sys kube e eid target labels host r)
        resolved-Allowed eid target labels host clear (ok _) =
            create_edge-Allowed eid target labels host
              (build_fault_for_scenario e.spec.scenario (parameters_of e)) clear
        resolved-Allowed eid target labels host clear (err x) =
            refuse-Allowed sys kube e protected alive pending _

        -- what follows the list of the VirtualServices
        abbrev unless_conflict :
            String → EdgeTarget → Labels → String → List VirtualServiceInfo → Op (Unit {0})
        unless_conflict eid target labels host vss =
            if has_conflict vss
            then refuse sys kube e (validation_text (conflicting_virtual_service host))
            else (do
              r ← resolve sys kube resolver target (target_namespace e)
              inject_resolved sys kube e eid target labels host r)

        module _ (target : EdgeTarget) (is_target : edge_of e.spec ≡ some target) where
          inject_edge-Allowed :
              (eid : String) (labels : Labels) (log : List Call)
              → kube.get_service_selector (target_namespace e) target.source_service log ≡ ok labels
              → is_empty labels ≡ false
              → Emits P (inject_edge sys kube e resolver eid target labels)
          unfolding inject_edge
          inject_edge-Allowed eid labels log selected filled =
              let host = fqdn target.destination_service (target_namespace e) in
              request->>= P (Call.list_virtual_services_for_host (target_namespace e) host)
                (kube.list_virtual_services_for_host (target_namespace e) host)
                (unless_conflict eid target labels host) tt
                λ vss listed found.
                  if-Emits P (has_conflict vss) _ _
                    (λ _. refuse-Allowed sys kube e protected alive pending _)
                    λ free.
                      >>=-Emits P (resolve sys kube resolver target (target_namespace e))
                        (inject_resolved sys kube e eid target labels host)
                        (resolve-Allowed resolver target (target_namespace e))
                        (resolved-Allowed eid target labels host (record {
                          target = target;
                          edge = is_target;
                          labels = labels;
                          looked_up = log;
                          selected = (selected, filled);
                          host = host;
                          listed = listed;
                          services = vss;
                          found = (found, free);
                        }))

          with_labels-Allowed :
              (eid : String) (r : Result OperatorError Labels) (log : List Call)
              → kube.get_service_selector (target_namespace e) target.source_service log ≡ r
              → Emits P (with_labels sys kube e resolver eid target r)
          with_labels-Allowed eid (ok (l ∷ ls)) log h = inject_edge-Allowed eid (l ∷ ls) log h refl
          with_labels-Allowed eid (ok []) log h =
              refuse-Allowed sys kube e protected alive pending _
          with_labels-Allowed eid (err x) log h =
              refuse-Allowed sys kube e protected alive pending _

        pub edge-Allowed : (eid : String) → Emits P (handle_pending_edge sys kube e resolver eid)
        unfolding handle_pending_edge
        edge-Allowed eid =
            lift->>= P (ok_or (edge_of e.spec) (validation missing_edge_target)) _ λ target given.
              attempt-request->>= P _
                (kube.get_service_selector (target_namespace e) target.source_service)
                (with_labels sys kube e resolver eid target) tt
                (with_labels-Allowed target (is_given (edge_of e.spec) target given) eid)
