-- ===== src/Base/Ascending.antt =====
-- Lists in strictly ascending order, and what a sort by a total order makes of a list without repeats.
use mathlib.Core.Path.{◌≡◌, refl, sym, ◌∙◌, subst}
use mathlib.Core.Logic.{◌≢◌, ◌↔◌, inl, inr}
use mathlib.Core.Bool.{Bool, true, false}
use mathlib.Core.List.{List, [], ◌∷◌}
use ch_chaos.Base.Tests.{Bool-cases}
use ch_chaos.Base.Lists.{All, Any}
use ch_chaos.Base.Order.{text_le, text_le_total, text_le_antisym, text_le_trans}
use ch_chaos.Base.Sort.{sort_by, insert_sorted, insert_sorted-All}

-- A total order, as the test whether the first may stand before the second.
pub record IsTotalOrder {A : Type 0} (le : A → A → Bool) : Type 0 where
  pub total : (a b : A) → le a b ≡ false → le b a ≡ true
  pub antisym : (a b : A) → le a b ≡ true → le b a ≡ true → a ≡ b
  pub trans : (a b c : A) → le a b ≡ true → le b c ≡ true → le a c ≡ true

module _ {A : Type 0} where
  abbrev pub IsDistinct : List A → Type 0
  IsDistinct [] = Unit
  IsDistinct (a ∷ l) = All (λ b. a ≢ b) l × IsDistinct l

  -- Two lists have the same members.
  abbrev pub HaveSame : List A → List A → Type 0
  HaveSame l m = (a : A) → Any (λ b. b ≡ a) l ↔ Any (λ b. b ≡ a) m

  of_All : (P : A → Type 0) (a : A) (l : List A) → All P l → Any (λ b. b ≡ a) l → P a
  of_All P a [] h k = absurd k
  of_All P a (b ∷ l) h k = elim k [ inl e ↦ subst P e h.0 | inr m ↦ of_All P a l h.1 m ]

module _ {A : Type 0} (le : A → A → Bool) where
  abbrev pub IsBelow : A → A → Type 0
  IsBelow a b = (le a b ≡ true) × (a ≢ b)

  abbrev pub IsAscending : List A → Type 0
  IsAscending [] = Unit
  IsAscending (a ∷ l) = All (IsBelow a) l × IsAscending l

  sort_by-All : (P : A → Type 0) (l : List A) → All P l → All P (sort_by le l)
  unfolding sort_by
  sort_by-All P [] h = tt
  sort_by-All P (a ∷ l) h = insert_sorted-All le P a (sort_by le l) h.0 (sort_by-All P l h.1)

  module _ (order : IsTotalOrder le) where
    -- what is below an element is below all that comes after it
    pub apart : (a b : A) (l : List A) → IsBelow a b → All (IsBelow b) l → All (IsBelow a) l
    apart a b [] below h = tt
    apart a b (c ∷ l) below h = (
      (
        order.trans a b c below.0 h.0.0,
        λ same. below.1 (order.antisym a b below.0 (subst (λ x. le b x ≡ true) (sym same) h.0.0)),
      ),
      apart a b l below h.1,
    )

    insert_sorted-IsAscending :
        (a : A) (l : List A)
        → All (λ b. a ≢ b) l
        → IsAscending l
        → IsAscending (insert_sorted le a l)
    insert_sorted-IsAscending a [] new h = (tt, tt)
    insert_sorted-IsAscending a (b ∷ l) new h = elim (Bool-cases (le a b)) [
      | inl before ↦ rw before (((before, new.0), apart a b l (before, new.0) h.0), h)
      | inr after ↦ rw after (
        insert_sorted-All le (IsBelow b) a l (order.total a b after, λ same. new.0 (sym same)) h.0,
        insert_sorted-IsAscending a l new.1 h.1,
      )
    ]

    pub sort_by-IsAscending : (l : List A) → IsDistinct l → IsAscending (sort_by le l)
    unfolding sort_by
    sort_by-IsAscending [] h = tt
    sort_by-IsAscending (a ∷ l) h =
        insert_sorted-IsAscending a (sort_by le l) (sort_by-All (λ b. a ≢ b) l h.0)
          (sort_by-IsAscending l h.1)

    heads :
        (a b : A) (l m : List A)
        → All (IsBelow a) l
        → All (IsBelow b) m
        → HaveSame (a ∷ l) (b ∷ m)
        → a ≡ b
    heads a b l m h k same = elim ((same a).0 (inl refl)) [
      | inl e ↦ sym e
      | inr in_m ↦ elim ((same b).1 (inl refl)) [
        | inl e ↦ e
        | inr in_l ↦ order.antisym a b (of_All _ b l h in_l).0 (of_All _ a m k in_m).0
      ]
    ]

    -- a member of a longer list, other than its head, is one of the rest
    in_rest :
        (a b c : A) (l : List A)
        → IsBelow a c
        → a ≡ b
        → Any (λ x. x ≡ c) (b ∷ l)
        → Any (λ x. x ≡ c) l
    in_rest a b c l below e k = elim k [ inl same ↦ absurd (below.1 (e ∙ same)) | inr m ↦ m ]

    -- An ascending list is determined by its members.
    pub ascending_unique : (l m : List A) → IsAscending l → IsAscending m → HaveSame l m → l ≡ m
    ascending_unique [] [] h k same = refl
    ascending_unique [] (b ∷ m) h k same = absurd ((same b).1 (inl refl))
    ascending_unique (a ∷ l) [] h k same = absurd ((same a).0 (inl refl))
    ascending_unique (a ∷ l) (b ∷ m) h k same =
        let e = heads a b l m h.0 k.0 same in
        let rest = ascending_unique l m h.1 k.1 (λ c. (
          λ p. in_rest a b c m (of_All _ c l h.0 p) e ((same c).0 (inr p)),
          λ p. in_rest b a c l (of_All _ c m k.0 p) (sym e) ((same c).1 (inr p)),
        )) in
        cc (e, rest)

pub text_order : IsTotalOrder text_le
text_order = record { total = text_le_total; antisym = text_le_antisym; trans = text_le_trans }
