-- ===== src/ImpactMap/Classes.antt =====
-- The classification of the affected services in a reconcile of an impact map
-- (src/operator/impact_map_reconciler.rs), by the answers of its clients.
use ch_chaos.Base.{
  ◌≡◌, refl, sym, subst, String, Bool-cases, inl, inr, Option, none, some, List, ◌∷◌, [], Result,
  ok, err, Outcome, done, arith, Option-cases, attempt-request,
}
use ch_chaos.Types.{is_edge_chaos}
use ch_chaos.Errors.{OperatorError}
use ch_chaos.Crd.{AffectedService, ChaosExperimentSpec, ChaosImpactMap}
use ch_chaos.Graph.{ServiceGraph}
use ch_chaos.Experiment.{edge_of}
use ch_chaos.ImpactMap.{classify_services}
use ch_chaos.ImpactMap.Outcomes.{classify_services_lem}
use ch_chaos.ImpactMap.Reconcile.{
  Call, Clients, experiment_namespace, map_namespace, classify_found, classify_with, classified,
}

module _ {F : Type 0} (clients : Clients F) (m : ChaosImpactMap F)
    (affected : List (AffectedService F)) (log : List (Call F)) where
  -- the calls after the read of the spec, and after the query of the graph
  abbrev pub read : List (Call F)
  read = Call.get_experiment_spec (experiment_namespace clients m) m.spec.experiment_ref.name ∷ log

  abbrev pub mapped_out : List (Call F)
  mapped_out = Call.query_service_graph [] ∷ read

  abbrev Reads : Result OperatorError ChaosExperimentSpec → Type 0
  Reads r =
      clients.get_experiment_spec (experiment_namespace clients m) m.spec.experiment_ref.name log
      ≡ r

  -- Where there is a client of the graph and both the spec and the graph are answered, the services with
  -- their classes by these; else the services as they are; and the calls made by then.
  pub data Classes : List (AffectedService F) → List (Call F) → Type 0 where
    no_client : clients.query_service_graph ≡ none → Classes affected log
    no_spec :
        {graph : List String → List (Call F) → Result OperatorError ServiceGraph}
        {x : OperatorError}
        → clients.query_service_graph ≡ some graph
        → Reads (err x)
        → Classes affected read
    no_graph :
        {graph : List String → List (Call F) → Result OperatorError ServiceGraph}
        {spec : ChaosExperimentSpec} {x : OperatorError}
        → clients.query_service_graph ≡ some graph
        → Reads (ok spec)
        → graph [] read ≡ err x
        → Classes affected mapped_out
    by_graph :
        {graph : List String → List (Call F) → Result OperatorError ServiceGraph}
        {spec : ChaosExperimentSpec} {mesh : ServiceGraph} {classes : List (AffectedService F)}
        → clients.query_service_graph ≡ some graph
        → Reads (ok spec)
        → graph [] read ≡ ok mesh
        → classify_services affected spec mesh (map_namespace clients m) ≡ some classes
        → Classes classes mapped_out

  classes_of :
      (spec : ChaosExperimentSpec) (graph : ServiceGraph)
      → (classes : List (AffectedService F)) × (classify_services affected spec graph
            (map_namespace clients m)
          ≡ some classes)
  unfolding classify_services
  classes_of spec graph =
      let (other, edge_chaos) =
        classify_services_lem affected spec graph (map_namespace clients m) in
      elim (Bool-cases (is_edge_chaos spec.scenario)) [
        | inr no_edge ↦ (affected, other no_edge)
        | inl edge ↦ elim (Option-cases (edge_of spec)) [
          | inl none_given ↦ (affected, ground (arith, edge, none_given))
          | inr (target, given) ↦
              let (classes, e, all) = edge_chaos target edge given in (classes, e)
        ]
      ]

  abbrev IsClassified : Outcome OperatorError (List (AffectedService F)) × List (Call F) → Type 0
  IsClassified o =
      (services : List (AffectedService F)) × (calls : List (Call F)) × (o ≡ (done services, calls))
      × Classes services calls

  module _ (graph : List String → List (Call F) → Result OperatorError ServiceGraph)
      (there : clients.query_service_graph ≡ some graph) where
    graph-Classes :
        (spec : ChaosExperimentSpec) (r : Result OperatorError ServiceGraph)
        → Reads (ok spec)
        → graph [] read ≡ r
        → IsClassified (classify_found clients m affected spec r mapped_out)
    graph-Classes spec (err x) e f = (affected, mapped_out, refl, no_graph there e f)
    graph-Classes spec (ok mesh) e f =
        let (classes, g) = classes_of spec mesh in
        (classes, mapped_out, rw g refl, by_graph there e f g)

    spec-Classes :
        (r : Result OperatorError ChaosExperimentSpec)
        → Reads r
        → IsClassified (classify_with clients m affected graph r read)
    spec-Classes (err x) e = (affected, read, refl, no_spec there e)
    spec-Classes (ok spec) e =
        subst IsClassified
          (sym (attempt-request _ (graph []) (classify_found clients m affected spec) read))
          (graph-Classes spec _ e refl)

  client-Classes :
      (o : Option (List String → List (Call F) → Result OperatorError ServiceGraph))
      → clients.query_service_graph ≡ o
      → IsClassified (classified clients m affected o log)
  client-Classes none e = (affected, log, refl, no_client e)
  client-Classes (some graph) e =
      subst IsClassified
        (sym (
          attempt-request _
            (clients.get_experiment_spec (experiment_namespace clients m)
              m.spec.experiment_ref.name)
            (classify_with clients m affected graph) log))
        (spec-Classes graph e _ refl)

  -- The classification ends, without a panic, in one of these cases.
  pub classified-Classes :
      IsClassified (classified clients m affected clients.query_service_graph log)
  classified-Classes = client-Classes _ refl
