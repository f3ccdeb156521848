-- ===== src/ImpactMap/Outcomes.antt =====
-- The classes of the services that an impact map names.
use ch_chaos.Base.{
  ◌≡◌, refl, ◌↔◌, ◌⊎◌, inl, inr, String, true, false, some, List, [], ◌∷◌, map, arith, Bool-cases,
}
use ch_chaos.Types.{direct, indirect, EdgeTarget, is_edge_chaos}
use ch_chaos.Crd.{AffectedService, ChaosExperimentSpec}
use ch_chaos.Graph.{ServiceKey, ServiceGraph}
use ch_chaos.Experiment.{edge_of}
use ch_chaos.ImpactMap.{
  Adjacency, contains, classify, classify_services, chaos_namespace, resolve_workload_key,
}
use ch_chaos.ImpactMap.Reach.{Walk}
use ch_chaos.ImpactMap.Reach.Correct.{reachable_from_correct}

module _ {F : Type 0} where
  abbrev key_of : AffectedService F → ServiceKey
  key_of s = record { workload = s.workload; namespace = s.namespace }

  -- A service and its class: direct exactly where a walk leads to it from the target.
  abbrev pub IsClassified : Adjacency → ServiceKey → AffectedService F → AffectedService F → Type 0
  IsClassified graph target s t =
      (t ≡ record s { impact_type = some direct }) × Walk graph target (key_of s)
      ⊎ (t ≡ record s { impact_type = some indirect }) × (¬ Walk graph target (key_of s))

  -- Each service of the first list, in order, is classified in the second.
  pub data AllClassified (graph : Adjacency) (target : ServiceKey)
      : List (AffectedService F) → List (AffectedService F) → Type 0 where
    no_more : AllClassified graph target [] []
    one_more :
        {s t : AffectedService F} {ss ts : List (AffectedService F)}
        → IsClassified graph target s t
        → AllClassified graph target ss ts
        → AllClassified graph target (s ∷ ss) (t ∷ ts)

  classify-IsClassified :
      (graph : Adjacency) (target : ServiceKey) (r : List ServiceKey)
      → ((k : ServiceKey) → (contains r k ≡ true) ↔ Walk graph target k)
      → (s : AffectedService F) → IsClassified graph target s (classify r s)
  classify-IsClassified graph target r found s = elim (Bool-cases (contains r (key_of s))) [
    | inl reached ↦ inl (rw reached refl, (found (key_of s)).0 reached)
    | inr missed ↦ inr (rw missed refl, λ w. cc (missed, (found (key_of s)).1 w))
  ]

  classify-AllClassified :
      (graph : Adjacency) (target : ServiceKey) (r : List ServiceKey)
      → ((k : ServiceKey) → (contains r k ≡ true) ↔ Walk graph target k)
      → (ss : List (AffectedService F)) → AllClassified graph target ss (map (classify r) ss)
  classify-AllClassified graph target r found [] = no_more
  classify-AllClassified graph target r found (s ∷ ss) =
      one_more (classify-IsClassified graph target r found s)
        (classify-AllClassified graph target r found ss)

  -- For an experiment on an edge the classification ends, and it marks each service, in order and with
  -- all else kept: as directly hit exactly where a walk along the graph leads to it from the workload
  -- behind the edge's destination, as indirectly hit otherwise. For any other experiment it changes
  -- nothing.
  pub classify_services_lem :
      (affected : List (AffectedService F)) (spec : ChaosExperimentSpec) (graph : ServiceGraph)
      (default_ns : String)
      → (is_edge_chaos spec.scenario ≡ false
          → classify_services affected spec graph default_ns ≡ some affected)
        × ((edge : EdgeTarget)
            → is_edge_chaos spec.scenario ≡ true
            → edge_of spec ≡ some edge
            → let target =
                resolve_workload_key edge.destination_service
                  (chaos_namespace spec default_ns)
                  graph.service_to_workload in
              (classes : List (AffectedService F)) × (classify_services affected spec graph
                  default_ns
                ≡ some classes)
              × AllClassified graph.adjacency target affected classes)
  unfolding classify_services
  classify_services_lem affected spec graph default_ns = (
    λ other. ground (arith, other),
    λ edge chaos has_edge.
        let target =
          resolve_workload_key edge.destination_service (chaos_namespace spec default_ns)
            graph.service_to_workload in
        let (r, ends, found) = reachable_from_correct graph.adjacency target in
        (
          map (classify r) affected,
          ground (arith, chaos, has_edge, ends),
          classify-AllClassified graph.adjacency target r found affected,
        ),
  )
