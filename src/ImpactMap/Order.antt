-- ===== src/ImpactMap/Order.antt =====
-- `compute_affected_services` (src/operator/impact_map_reconciler.rs) on hash maps that hold the same
-- readings in another order.
use text.Mathlib.TextEquality.{eq_iff}
use ch_chaos.Base.{
  ℕ, true, false, Bool-cases, ◌≡◌, ◌≢◌, refl, ◌∙◌, sym, ◌↔◌, inl, inr, ◌||◌, is_some, List, [], ◌∷◌,
  All, Any, sort_by, sort_by-Any, of_sort_by, text_le_total, text_le_antisym, text_le_trans, arith,
}
use ch_chaos.Base.Ascending.{
  IsTotalOrder, IsDistinct, HaveSame, sort_by-IsAscending, ascending_unique,
}
use ch_chaos.Graph.{ServiceKey, lookup_key}
use ch_chaos.ImpactMap.{
  MetricPair, MetricsSnapshot, key_le, contains, insert_set, extend, discover_services,
  score_metric, score_error_rate, score_service, affected_of, compute_affected_services,
}
use ch_chaos.ImpactMap.Reach.Visited.{key_eq_iff}
use ch_chaos.Float.{Float}
use ch_chaos.Types.{DegradationDirection, up, down}

key_le_total : (a b : ServiceKey) → key_le a b ≡ false → key_le b a ≡ true
key_le_total a b h = ground (
  arith,
  eq_iff a.workload b.workload,
  eq_iff b.workload a.workload,
  text_le_total a.workload b.workload,
  text_le_total a.namespace b.namespace,
)

key_le_antisym : (a b : ServiceKey) → key_le a b ≡ true → key_le b a ≡ true → a ≡ b
key_le_antisym a b h k = ground (
  arith,
  eq_iff a.workload b.workload,
  eq_iff b.workload a.workload,
  text_le_antisym a.workload b.workload,
  text_le_antisym a.namespace b.namespace,
)

key_le_trans : (a b c : ServiceKey) → key_le a b ≡ true → key_le b c ≡ true → key_le a c ≡ true
key_le_trans a b c h k = ground (
  arith,
  eq_iff a.workload b.workload,
  eq_iff b.workload c.workload,
  eq_iff a.workload c.workload,
  text_le_trans a.workload b.workload c.workload,
  text_le_antisym a.workload b.workload,
  text_le_trans a.namespace b.namespace c.namespace,
)

key_order : IsTotalOrder key_le
key_order = record { total = key_le_total; antisym = key_le_antisym; trans = key_le_trans }

contains_iff : (l : List ServiceKey) (k : ServiceKey) → (contains l k ≡ true) ↔ Any (λ j. j ≡ k) l
contains_iff [] k = (λ h. cc h, λ h. absurd h)
contains_iff (j ∷ l) k = ground (arith, contains_iff l k, key_eq_iff j k)

absent : (k : ServiceKey) (l : List ServiceKey) → contains l k ≡ false → All (λ j. k ≢ j) l
absent k [] h = tt
absent k (j ∷ l) h = ground (arith, absent k l, key_eq_iff j k)

module _ {V : Type 0} where
  extend-IsDistinct :
      (m : List (ServiceKey × V)) (l : List ServiceKey) → IsDistinct l → IsDistinct (extend m l)
  unfolding extend
  extend-IsDistinct [] l h = h
  extend-IsDistinct ((k, v) ∷ m) l h =
      extend-IsDistinct m (insert_set k l) (elim (Bool-cases (contains l k)) [
        | inl old ↦ rw old h
        | inr new ↦ rw new (absent k l new, h)
      ])

  contains-extend :
      (m : List (ServiceKey × V)) (l : List ServiceKey) (j : ServiceKey)
      → contains (extend m l) j ≡ (is_some (lookup_key j m) || contains l j)
  unfolding extend
  contains-extend [] l j = refl
  contains-extend ((k, v) ∷ m) l j =
      ground (arith, contains-extend m (insert_set k l) j, key_eq_iff k j)

  extend_same :
      (m n : List (ServiceKey × V)) (l l' : List ServiceKey)
      → ((k : ServiceKey) → lookup_key k m ≡ lookup_key k n)
      → ((k : ServiceKey) → contains l k ≡ contains l' k)
      → (k : ServiceKey) → contains (extend m l) k ≡ contains (extend n l') k
  extend_same m n l l' readings before k =
      cc (contains-extend m l k, contains-extend n l' k, readings k, before k)

members_same :
    (l m : List ServiceKey)
    → ((k : ServiceKey) → contains l k ≡ contains m k)
    → HaveSame (sort_by key_le l) (sort_by key_le m)
members_same l m same k = (move l m (same k), move m l (sym (same k)))
  where
    move :
        (l m : List ServiceKey)
        → contains l k ≡ contains m k
        → Any (λ j. j ≡ k) (sort_by key_le l)
        → Any (λ j. j ≡ k) (sort_by key_le m)
    move l m e h =
        sort_by-Any key_le _ m
          ((contains_iff m k).0 (sym e ∙ (contains_iff l k).1 (of_sort_by key_le _ l h)))

sorted_same :
    (l m : List ServiceKey)
    → IsDistinct l
    → IsDistinct m
    → ((k : ServiceKey) → contains l k ≡ contains m k)
    → sort_by key_le l ≡ sort_by key_le m
sorted_same l m h k same =
    ascending_unique key_le key_order (sort_by key_le l) (sort_by key_le m)
      (sort_by-IsAscending key_le key_order l h) (sort_by-IsAscending key_le key_order m k)
      (members_same l m same)

module _ {F : Type 0} where
  -- Two pairs of maps, and two snapshots, that give each service the same readings: as hash maps they
  -- are equal, in whatever order they are listed.
  pub record HasSamePair (p q : MetricPair F) : Type 0 where
    pub baseline : (k : ServiceKey) → lookup_key k p.baseline ≡ lookup_key k q.baseline
    pub during : (k : ServiceKey) → lookup_key k p.during ≡ lookup_key k q.during

  pub record HasSameReadings (m n : MetricsSnapshot F) : Type 0 where
    pub latency : HasSamePair m.latency n.latency
    pub error_rate : HasSamePair m.error_rate n.error_rate
    pub throughput : HasSamePair m.throughput n.throughput

  abbrev from_pair : MetricPair F → List ServiceKey → List ServiceKey
  from_pair p l = extend p.during (extend p.baseline l)

  from_pair-IsDistinct :
      (p : MetricPair F) (l : List ServiceKey) → IsDistinct l → IsDistinct (from_pair p l)
  from_pair-IsDistinct p l h =
      extend-IsDistinct p.during (extend p.baseline l) (extend-IsDistinct p.baseline l h)

  from_pair_same :
      (p q : MetricPair F) (l l' : List ServiceKey)
      → HasSamePair p q
      → ((k : ServiceKey) → contains l k ≡ contains l' k)
      → (k : ServiceKey) → contains (from_pair p l) k ≡ contains (from_pair q l') k
  from_pair_same p q l l' h before =
      extend_same p.during q.during (extend p.baseline l) (extend q.baseline l') h.during
        (extend_same p.baseline q.baseline l l' h.baseline before)

  abbrev found : MetricsSnapshot F → List ServiceKey
  found m = from_pair m.throughput (from_pair m.error_rate (from_pair m.latency []))

  found-IsDistinct : (m : MetricsSnapshot F) → IsDistinct (found m)
  found-IsDistinct m =
      from_pair-IsDistinct m.throughput _
        (from_pair-IsDistinct m.error_rate _ (from_pair-IsDistinct m.latency [] tt))

  module _ (float : Float F) (m n : MetricsSnapshot F) (same : HasSameReadings m n) where
    discover_services_same : discover_services float m ≡ discover_services float n
    unfolding discover_services
    discover_services_same =
        sorted_same (found m) (found n) (found-IsDistinct m) (found-IsDistinct n) (
          from_pair_same m.throughput n.throughput _ _ same.throughput (
            from_pair_same m.error_rate n.error_rate _ _ same.error_rate
              (from_pair_same m.latency n.latency [] [] same.latency (λ k. refl))))

    score_metric_same :
        (p q : MetricPair F) (svc : ServiceKey) (direction : DegradationDirection)
        → HasSamePair p q
        → score_metric float p svc direction ≡ score_metric float q svc direction
    unfolding score_metric
    score_metric_same p q svc direction h = rw (h.baseline svc, h.during svc) refl

    score_error_rate_same :
        (p q : MetricPair F) (svc : ServiceKey)
        → HasSamePair p q
        → score_error_rate float p svc ≡ score_error_rate float q svc
    unfolding score_error_rate
    score_error_rate_same p q svc h = rw (h.baseline svc, h.during svc) refl

    score_service_same : (svc : ServiceKey) → score_service float m svc ≡ score_service float n svc
    score_service_same svc =
        rw
          (
            score_metric_same m.latency n.latency svc up same.latency,
            score_error_rate_same m.error_rate n.error_rate svc same.error_rate,
            score_metric_same m.throughput n.throughput svc down same.throughput,
          )
          refl

    affected_of_same :
        (min_impact : ℕ) (svcs : List ServiceKey)
        → affected_of float m min_impact svcs ≡ affected_of float n min_impact svcs
    unfolding affected_of
    affected_of_same min_impact [] = refl
    affected_of_same min_impact (svc ∷ svcs) =
        cc (score_service_same svc, affected_of_same min_impact svcs)

    -- For two snapshots that give each service the same readings, whatever the order in which their maps
    -- are listed, the same number of services is scanned, and the same affected services are reported in
    -- the same order, those of equal score included.
    pub compute_affected_services_same :
        (min_impact : ℕ)
        → compute_affected_services float m min_impact
          ≡ compute_affected_services float n min_impact
    unfolding compute_affected_services
    compute_affected_services_same min_impact =
        rw (discover_services_same, affected_of_same min_impact (discover_services float n)) refl
