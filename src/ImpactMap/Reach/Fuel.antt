-- ===== src/ImpactMap/Reach/Fuel.antt =====
-- The fuel of the search: the work that is left in each round of the loop.
use ch_chaos.Base.{
  ℕ, zero, suc, ◌+◌, ◌≤◌, ◌<◌, ◌≡◌, refl, true, false, some, List, [], ◌∷◌, ◌++◌, arith, length,
  length-append, if◌then◌else◌,
}
use ch_chaos.Graph.{ServiceKey}
use ch_chaos.ImpactMap.{
  Adjacency, Search, contains, offer, scan, neighbors, search_loop, edge_count, reachable_from,
}
use ch_chaos.ImpactMap.Reach.Visited.{key_eq_iff, contains-append}

-- the ends of all edges
abbrev targets : Adjacency → List ServiceKey
targets [] = []
targets ((k, ns) ∷ g) = ns ++ targets g

length-targets : (g : Adjacency) → length (targets g) ≡ edge_count g
length-targets [] = refl
length-targets ((k, ns) ∷ g) = omega (arith, length-append ns (targets g), length-targets g)

neighbors-targets :
    (g : Adjacency) (u v : ServiceKey)
    → contains (neighbors g u) v ≡ true
    → contains (targets g) v ≡ true
neighbors-targets [] u v h = h
neighbors-targets ((k, ns) ∷ g) u v h =
    ground (arith, neighbors-targets g u v, contains-append ns (targets g) v)

-- how many of the nodes are not visited
abbrev unseen : List ServiceKey → List ServiceKey → ℕ
unseen [] visited = 0
unseen (x ∷ xs) visited =
    let rest = unseen xs visited in if contains visited x then rest else suc rest

unseen-le-length : (xs visited : List ServiceKey) → unseen xs visited ≤ length xs
unseen-le-length [] visited = omega arith
unseen-le-length (x ∷ xs) visited = ground (arith, unseen-le-length xs visited)

unseen-visit :
    (xs visited : List ServiceKey) (k : ServiceKey) → unseen xs (k ∷ visited) ≤ unseen xs visited
unseen-visit [] visited k = omega arith
unseen-visit (x ∷ xs) visited k = ground (arith, unseen-visit xs visited k)

unseen-new :
    (xs visited : List ServiceKey) (k : ServiceKey)
    → contains xs k ≡ true
    → contains visited k ≡ false
    → unseen xs (k ∷ visited) < unseen xs visited
unseen-new [] visited k h new = ground arith
unseen-new (x ∷ xs) visited k h new =
    ground
      (arith, unseen-new xs visited k, unseen-visit xs visited k, key_eq_iff x k, key_eq_iff k x)

module _ (xs : List ServiceKey) where
  abbrev work : Search → ℕ
  work s = unseen xs s.visited + length s.queue

  work-offer : (k : ServiceKey) (s : Search) → contains xs k ≡ true → work (offer k s) ≤ work s
  work-offer k s h = ground (arith, unseen-new xs s.visited k, length-append s.queue (k ∷ []))

  work-scan :
      (ks : List ServiceKey) (s : Search)
      → ((k : ServiceKey) → contains ks k ≡ true → contains xs k ≡ true)
      → work (scan ks s) ≤ work s
  unfolding scan
  work-scan [] s sub = omega arith
  work-scan (k ∷ ks) s sub = omega (
    arith,
    work-scan ks (offer k s) (λ j h. sub j (ground (arith, h))),
    work-offer k s (sub k (ground (arith, key_eq_iff k k))),
  )

pub search_loop-ends :
    (g : Adjacency) (fuel : ℕ) (visited queue : List ServiceKey)
    → unseen (targets g) visited + length queue ≤ fuel
    → (r : List ServiceKey) × (search_loop g fuel visited queue ≡ some r)
unfolding search_loop
search_loop-ends g fuel visited [] h = (visited, ground arith)
search_loop-ends g zero visited (u ∷ queue) h = absurd (omega arith)
search_loop-ends g (suc fuel) visited (u ∷ queue) h =
    let s : Search = record { visited = visited; queue = queue } in
    let t = scan (neighbors g u) s in
    search_loop-ends g fuel t.visited t.queue
      (omega (arith, work-scan (targets g) (neighbors g u) s (neighbors-targets g u)))

pub reachable_from-ends :
    (g : Adjacency) (start : ServiceKey) → (r : List ServiceKey) × (reachable_from g start ≡ some r)
unfolding reachable_from
reachable_from-ends g start =
    search_loop-ends g (suc (edge_count g)) (start ∷ []) (start ∷ [])
      (omega (arith, unseen-le-length (targets g) (start ∷ []), length-targets g))
