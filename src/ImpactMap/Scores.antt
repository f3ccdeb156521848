-- ===== src/ImpactMap/Scores.antt =====
-- The list of affected services: which services it holds, their scores and their order.
use mathlib.Core.List.{Perm, filter}
use native.Mathlib.Decide.{dec_le}
use native.Mathlib.Omega.{arith}
use ch_chaos.Base.{
  ℕ, ◌%◌, ◌^◌, ◌≤◌, ◌≡◌, refl, List, [], ◌∷◌, map, All, length, insert_sorted, sort_by,
  sort_by-perm,
}
use ch_chaos.Crd.{AffectedService}
use ch_chaos.Crd.Impact.{calculate_impact}
use ch_chaos.Float.{Float}
use ch_chaos.Graph.{ServiceKey}
use ch_chaos.ImpactMap.{
  MetricsSnapshot, discover_services, score_metric, score_error_rate, score_service, affected_of,
  worse_first, compute_affected_services,
}

module _ {F : Type 0} (float : Float F) where
  -- No service further down has a higher score.
  abbrev pub IsDescending : List (AffectedService F) → Type 0
  IsDescending [] = Unit
  IsDescending (a ∷ l) = All (λ b. b.impact_score ≤ a.impact_score) l × IsDescending l

  abbrev Below : ℕ → List (AffectedService F) → Type 0
  Below n l = All (λ b. b.impact_score ≤ n) l

  Below-mono : (m n : ℕ) (l : List (AffectedService F)) → m ≤ n → Below m l → Below n l
  Below-mono m n [] h b = tt
  Below-mono m n (x ∷ l) h b = (omega arith, Below-mono m n l h b.1)

  Below-insert :
      (n : ℕ) (a : AffectedService F) (l : List (AffectedService F))
      → a.impact_score ≤ n
      → Below n l
      → Below n (insert_sorted (worse_first float) a l)
  Below-insert n a [] h b = (h, tt)
  Below-insert n a (x ∷ l) h b = ground (arith, Below-insert n a l h b.1)

  insert-IsDescending :
      (a : AffectedService F) (l : List (AffectedService F))
      → IsDescending l
      → IsDescending (insert_sorted (worse_first float) a l)
  insert-IsDescending a [] h = (tt, tt)
  insert-IsDescending a (x ∷ l) h = ground (
    arith,
    insert-IsDescending a l h.1,
    Below-insert x.impact_score a l,
    Below-mono x.impact_score a.impact_score l,
  )

  sort-IsDescending : (l : List (AffectedService F)) → IsDescending (sort_by (worse_first float) l)
  unfolding sort_by
  sort-IsDescending [] = tt
  sort-IsDescending (a ∷ l) =
      insert-IsDescending a (sort_by (worse_first float) l) (sort-IsDescending l)

  score_service_bounds :
      (metrics : MetricsSnapshot F) (svc : ServiceKey)
      → (score_service float metrics svc).impact_score ≤ 100
  unfolding score_metric score_error_rate calculate_impact
  score_service_bounds metrics svc = ground arith

  -- `affected_of` as the library's `filter` and `map`
  affected_of-filter :
      (metrics : MetricsSnapshot F) (min_impact : ℕ) (svcs : List ServiceKey)
      → affected_of float metrics min_impact svcs
        ≡ filter (λ a. dec_le min_impact a.impact_score) (map (score_service float metrics) svcs)
  unfolding affected_of
  affected_of-filter metrics min_impact [] = refl
  affected_of-filter metrics min_impact (svc ∷ svcs) =
      ground (arith, affected_of-filter metrics min_impact svcs)

  Below-affected_of :
      (metrics : MetricsSnapshot F) (min_impact : ℕ) (svcs : List ServiceKey)
      → Below 100 (affected_of float metrics min_impact svcs)
  unfolding affected_of
  Below-affected_of metrics min_impact [] = tt
  Below-affected_of metrics min_impact (svc ∷ svcs) =
      ground (arith, Below-affected_of metrics min_impact svcs, score_service_bounds metrics svc)

  Below-sort_by :
      (n : ℕ) (l : List (AffectedService F)) → Below n l → Below n (sort_by (worse_first float) l)
  unfolding sort_by
  Below-sort_by n [] b = tt
  Below-sort_by n (a ∷ l) b = Below-insert n a _ b.0 (Below-sort_by n l b.1)

  -- The affected services are, up to order, the scored services of the metrics whose score reaches the
  -- least impact, each as often; they are listed by falling score, and no score exceeds 100. The count
  -- of scanned services is that of the services found, as a `u32`.
  pub compute_affected_services_lem :
      (metrics : MetricsSnapshot F) (min_impact : ℕ)
      → let (scanned, affected) = compute_affected_services float metrics min_impact in
        Perm affected (
          filter
            (λ a. dec_le min_impact a.impact_score)
            (map (score_service float metrics) (discover_services float metrics)))
        × IsDescending affected
        × All (λ a. a.impact_score ≤ 100) affected
        × (scanned ≡ length (discover_services float metrics) % 2 ^ 32)
  unfolding compute_affected_services
  compute_affected_services_lem metrics min_impact =
      let svcs = discover_services float metrics in
      let l = affected_of float metrics min_impact svcs in
      (
        rw (← affected_of-filter metrics min_impact svcs) (sort_by-perm (worse_first float) l),
        sort-IsDescending l,
        Below-sort_by 100 l (Below-affected_of metrics min_impact svcs),
        refl,
      )
