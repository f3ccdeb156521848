-- ===== src/ImpactMap/Reach.antt =====
-- The walks along the edges of a graph, which `reachable_from` (src/operator/impact_map_reconciler.rs)
-- is to find.
pub mod Visited
pub mod Fuel
pub mod Correct
use ch_chaos.Base.{◌≡◌, true, List}
use ch_chaos.Graph.{ServiceKey}
use ch_chaos.ImpactMap.{Adjacency, contains, neighbors}

-- the walks along the edges from `start`
pub data Walk (graph : Adjacency) (start : ServiceKey) : ServiceKey → Type 0 where
  here : Walk graph start start
  step :
      {u v : ServiceKey}
      → Walk graph start u
      → contains (neighbors graph u) v ≡ true
      → Walk graph start v
