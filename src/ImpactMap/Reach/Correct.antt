-- ===== src/ImpactMap/Reach/Correct.antt =====
-- The nodes found by the search, and the walks: the invariant of the loop.
use ch_chaos.Base.{
  ℕ, zero, suc, ◌≡◌, refl, ◌⊎◌, inl, inr, ◌↔◌, Bool, true, false, ◌||◌, some, List, [], ◌∷◌, arith,
  subst,
}
use ch_chaos.Graph.{ServiceKey}
use ch_chaos.ImpactMap.{
  Adjacency, Search, contains, scan, neighbors, search_loop, edge_count, reachable_from,
}
use ch_chaos.ImpactMap.Reach.{Walk, here, step}
use ch_chaos.ImpactMap.Reach.Visited.{key_eq_iff, visited-scan, queue-scan}
use ch_chaos.ImpactMap.Reach.Fuel.{reachable_from-ends}

module _ (g : Adjacency) (start : ServiceKey) where
  record Inv (visited queue : List ServiceKey) : Type 0 where
    source : contains visited start ≡ true
    queued : (k : ServiceKey) → contains queue k ≡ true → contains visited k ≡ true
    sound : (k : ServiceKey) → contains visited k ≡ true → Walk g start k
    closed :
        (u v : ServiceKey)
        → contains visited u ≡ true
        → contains (neighbors g u) v ≡ true
        → (contains queue u ≡ true) ⊎ (contains visited v ≡ true)

  or-cases : (a b : Bool) → (a || b) ≡ true → (a ≡ true) ⊎ (b ≡ true)
  or-cases true b h = inl refl
  or-cases false b h = inr h

  Inv-start : Inv (start ∷ []) (start ∷ [])
  Inv-start = record {
    source = ground (arith, key_eq_iff start start);
    queued = λ k h. h;
    sound = λ k h. subst (Walk g start) ((key_eq_iff start k).0 (ground arith)) here;
    closed = λ u v h e. inl h;
  }

  Inv-round :
      (u : ServiceKey) (visited queue : List ServiceKey)
      → Inv visited (u ∷ queue)
      → let s = scan (neighbors g u) (record { visited = visited; queue = queue }) in
        Inv s.visited s.queue
  Inv-round u visited queue inv =
      let s : Search = record { visited = visited; queue = queue } in
      let flags = visited-scan (neighbors g u) s in
      let waiting = queue-scan (neighbors g u) s in
      let to_u = inv.sound u (inv.queued u (ground (arith, key_eq_iff u u))) in
      record {
        source = ground (arith, flags start, inv.source);
        queued = λ k h. ground (arith, flags k, waiting k, inv.queued k);
        sound = λ k h.
            elim (or-cases (contains visited k) (contains (neighbors g u) k)
              (ground (arith, flags k))) [ inl old ↦ inv.sound k old | inr new ↦ step to_u new ];
        closed =
            λ x v h e. ground (arith, flags x, flags v, waiting x, inv.closed x v, key_eq_iff u x);
      }

  Inv-loop :
      (fuel : ℕ) (visited queue r : List ServiceKey)
      → Inv visited queue
      → search_loop g fuel visited queue ≡ some r
      → Inv r []
  unfolding search_loop
  Inv-loop fuel visited [] r inv h = ground arith
  Inv-loop zero visited (u ∷ queue) r inv h = ground arith
  Inv-loop (suc fuel) visited (u ∷ queue) r inv h =
      let s = scan (neighbors g u) (record { visited = visited; queue = queue }) in
      Inv-loop fuel s.visited s.queue r (Inv-round u visited queue inv) h

  complete :
      (r : List ServiceKey) → Inv r [] → {k : ServiceKey} → Walk g start k → contains r k ≡ true
  complete r inv here = inv.source
  complete r inv (step {u} {v} w e) = elim (inv.closed u v (complete r inv w) e) [
    | inl waiting ↦ cc
    | inr found ↦ found
  ]

-- The search of the impact map ends, and the services that it returns are exactly those that a walk
-- along the edges of the graph leads to from the start, the start itself among them.
pub reachable_from_correct :
    (g : Adjacency) (start : ServiceKey)
    → (r : List ServiceKey) × (reachable_from g start ≡ some r)
      × ((k : ServiceKey) → (contains r k ≡ true) ↔ Walk g start k)
unfolding reachable_from
reachable_from_correct g start =
    let (r, ends) = reachable_from-ends g start in
    let inv =
      Inv-loop g start (suc (edge_count g)) (start ∷ []) (start ∷ []) r (Inv-start g start) ends in
    (r, ends, λ k. (inv.sound k, complete g start r inv))
