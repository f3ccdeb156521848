-- ===== src/ImpactMap/Reach/Visited.antt =====
-- What a scan of a node's neighbors does to the visited set and to the queue.
use text.Mathlib.TextEquality.{eq_iff}
use ch_chaos.Base.{◌≡◌, refl, ◌↔◌, true, not, ◌&&◌, ◌||◌, List, [], ◌∷◌, ◌++◌, arith}
use ch_chaos.Graph.{ServiceKey, key_eq}
use ch_chaos.ImpactMap.{Search, contains, offer, scan}

pub key_eq_iff : (a b : ServiceKey) → (key_eq a b ≡ true) ↔ (a ≡ b)
key_eq_iff a b = ground (arith, eq_iff a.workload b.workload, eq_iff a.namespace b.namespace)

pub contains-append :
    (xs ys : List ServiceKey) (k : ServiceKey)
    → contains (xs ++ ys) k ≡ (contains xs k || contains ys k)
contains-append [] ys k = refl
contains-append (x ∷ xs) ys k = ground (arith, contains-append xs ys k)

pub visited-scan :
    (ks : List ServiceKey) (s : Search) (k : ServiceKey)
    → contains (scan ks s).visited k ≡ (contains s.visited k || contains ks k)
unfolding scan
visited-scan [] s k = ground arith
visited-scan (j ∷ ks) s k = ground (arith, visited-scan ks (offer j s) k, key_eq_iff j k)

pub queue-scan :
    (ks : List ServiceKey) (s : Search) (k : ServiceKey)
    → contains (scan ks s).queue k
      ≡ (contains s.queue k || contains ks k && not (contains s.visited k))
unfolding scan
queue-scan [] s k = ground arith
queue-scan (j ∷ ks) s k =
    ground (arith, queue-scan ks (offer j s) k, key_eq_iff j k, contains-append s.queue (j ∷ []) k)
