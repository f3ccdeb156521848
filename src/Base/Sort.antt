-- ===== src/Base/Sort.antt =====
-- A stable sort, as `sort_by` of the source's `Vec`, by the test whether the first may stand before the
-- second.
use mathlib.Core.Logic.{◌⊎◌, inl, inr}
use mathlib.Core.Bool.{Bool, true, false}
use mathlib.Core.List.{List, [], ◌∷◌, Perm}
use mathlib.Core.List.Perm
use ch_chaos.Base.Tests.{if◌then◌else◌, Bool-cases}
use ch_chaos.Base.Lists.{All, Any}

module _ {A : Type 0} (le : A → A → Bool) where
  abbrev pub insert_sorted : A → List A → List A
  insert_sorted x [] = x ∷ []
  insert_sorted x (y ∷ ys) = if le x y then x ∷ y ∷ ys else y ∷ insert_sorted x ys

  unfoldable pub sort_by : List A → List A
  sort_by [] = []
  sort_by (x ∷ xs) = insert_sorted x (sort_by xs)

  insert_sorted-perm : (x : A) (ys : List A) → Perm (insert_sorted x ys) (x ∷ ys)
  insert_sorted-perm x [] = Perm.refl _
  insert_sorted-perm x (y ∷ ys) = elim (Bool-cases (le x y)) [
    | inl before ↦ rw before (Perm.refl _)
    | inr after ↦ rw after (Perm.trans (Perm.cons y (insert_sorted-perm x ys)) (Perm.swap x y ys))
  ]

  pub sort_by-perm : (xs : List A) → Perm (sort_by xs) xs
  unfolding sort_by
  sort_by-perm [] = Perm.refl _
  sort_by-perm (x ∷ xs) =
      Perm.trans (insert_sorted-perm x (sort_by xs)) (Perm.cons x (sort_by-perm xs))

  module _ (P : A → Type 0) where
    pub insert_sorted-All : (x : A) (ys : List A) → P x → All P ys → All P (insert_sorted x ys)
    insert_sorted-All x [] p h = (p, tt)
    insert_sorted-All x (y ∷ ys) p h = elim (Bool-cases (le x y)) [
      | inl before ↦ rw before (p, h)
      | inr after ↦ rw after (h.0, insert_sorted-All x ys p h.1)
    ]

    insert_sorted-Any : (x : A) (ys : List A) → P x ⊎ Any P ys → Any P (insert_sorted x ys)
    insert_sorted-Any x [] h = h
    insert_sorted-Any x (y ∷ ys) h = elim (Bool-cases (le x y)) [
      | inl before ↦ rw before h
      | inr after ↦ rw after (elim h [
        | inl p ↦ inr (insert_sorted-Any x ys (inl p))
        | inr q ↦ elim q [ inl p ↦ inl p | inr r ↦ inr (insert_sorted-Any x ys (inr r)) ]
      ])
    ]

    by_test :
        (b : Bool) (x y : A) (ys zs : List A)
        → (Any P zs → P x ⊎ Any P ys)
        → Any P (if b then x ∷ y ∷ ys else y ∷ zs)
        → P x ⊎ Any P (y ∷ ys)
    by_test true x y ys zs k h = h
    by_test false x y ys zs k h = elim h [
      | inl p ↦ inr (inl p)
      | inr q ↦ elim (k q) [ inl p ↦ inl p | inr r ↦ inr (inr r) ]
    ]

    of_insert : (x : A) (ys : List A) → Any P (insert_sorted x ys) → P x ⊎ Any P ys
    of_insert x [] h = h
    of_insert x (y ∷ ys) h = by_test (le x y) x y ys (insert_sorted x ys) (of_insert x ys) h

    pub sort_by-Any : (xs : List A) → Any P xs → Any P (sort_by xs)
    unfolding sort_by
    sort_by-Any [] h = h
    sort_by-Any (x ∷ xs) h =
        insert_sorted-Any x (sort_by xs) (elim h [ inl p ↦ inl p | inr q ↦ inr (sort_by-Any xs q) ])

    pub of_sort_by : (xs : List A) → Any P (sort_by xs) → Any P xs
    unfolding sort_by
    of_sort_by [] h = h
    of_sort_by (x ∷ xs) h = elim (of_insert x (sort_by xs) h) [
      | inl p ↦ inl p
      | inr q ↦ inr (of_sort_by xs q)
    ]
