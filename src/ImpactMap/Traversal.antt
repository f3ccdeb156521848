-- ===== src/ImpactMap/Traversal.antt =====
-- src/operator/impact_map_reconciler.rs, `reachable_from`: the breadth-first search of the graph.
use ch_chaos.Base.{
  ℕ, zero, suc, ◌+◌, Bool, false, ◌||◌, Option, none, some, List, [], ◌∷◌, ◌++◌, if◌then◌else◌,
  unwrap_or, length,
}
use ch_chaos.Graph.{ServiceKey, key_eq, lookup_key}

abbrev pub contains : List ServiceKey → ServiceKey → Bool
contains [] k = false
contains (j ∷ ks) k = key_eq j k || contains ks k

abbrev pub Adjacency : Type 0
Adjacency = List (ServiceKey × List ServiceKey)

-- `visited` and `queue`
pub record Search : Type 0 where
  pub visited : List ServiceKey
  pub queue : List ServiceKey

-- `if visited.insert(neighbor) { queue.push_back(neighbor) }`
abbrev pub offer : ServiceKey → Search → Search
offer k s =
    if contains s.visited k
    then s
    else record { visited = k ∷ s.visited; queue = s.queue ++ (k ∷ []) }

unfoldable pub scan : List ServiceKey → Search → Search
scan [] s = s
scan (k ∷ ks) s = scan ks (offer k s)

abbrev pub neighbors : Adjacency → ServiceKey → List ServiceKey
neighbors graph node = unwrap_or (lookup_key node graph) []

-- the `while` loop; `none` when the fuel runs out
unfoldable pub search_loop :
    Adjacency → ℕ → List ServiceKey → List ServiceKey → Option (List ServiceKey)
search_loop graph fuel visited [] = some visited
search_loop graph zero visited (node ∷ queue) = none
search_loop graph (suc fuel) visited (node ∷ queue) =
    let s = scan (neighbors graph node) (record { visited = visited; queue = queue }) in
    search_loop graph fuel s.visited s.queue

-- the number of edges
abbrev pub edge_count : Adjacency → ℕ
edge_count [] = 0
edge_count ((k, ns) ∷ g) = length ns + edge_count g

-- A node enters the queue once, and every node but the first is the end of an edge.
unfoldable pub reachable_from : Adjacency → ServiceKey → Option (List ServiceKey)
reachable_from graph start = search_loop graph (suc (edge_count graph)) (start ∷ []) (start ∷ [])
