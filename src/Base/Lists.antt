-- ===== src/Base/Lists.antt =====
-- Lists and options as the source's `Vec` and `Option` use them.
use Prim.Native.Nat.{ℕ, suc, ◌+◌}
use mathlib.Core.Path.{◌≡◌}
use mathlib.Core.Logic.{◌⊎◌}
use mathlib.Core.Bool.{Bool, true, false, ◌&&◌, ◌||◌}
use mathlib.Core.Option.{Option, none, some}
use mathlib.Core.List.{List, [], ◌∷◌, ◌++◌}
use native.Mathlib.Omega.{arith}
use ch_chaos.Base.Tests.{if◌then◌else◌}

module _ {ℓ} {A : Type ℓ} where
  abbrev pub length : List A → ℕ
  length [] = 0
  length (x ∷ xs) = suc (length xs)

  pub length-append : (xs ys : List A) → length (xs ++ ys) ≡ length xs + length ys
  length-append [] ys = omega arith
  length-append (x ∷ xs) ys = omega (arith, length-append xs ys)

  -- `Vec::is_empty`
  abbrev pub is_empty : List A → Bool
  is_empty [] = true
  is_empty (x ∷ xs) = false

  abbrev pub any : (A → Bool) → List A → Bool
  any p [] = false
  any p (x ∷ xs) = p x || any p xs

  abbrev pub all : (A → Bool) → List A → Bool
  all p [] = true
  all p (x ∷ xs) = p x && all p xs

  -- `Iterator::find`
  abbrev pub find : (A → Bool) → List A → Option A
  find p [] = none
  find p (x ∷ xs) = if p x then some x else find p xs

  -- `Option::unwrap_or`
  abbrev pub unwrap_or : Option A → A → A
  unwrap_or none d = d
  unwrap_or (some a) d = a

  abbrev pub is_some : Option A → Bool
  is_some none = false
  is_some (some a) = true

-- `Option::and_then`
abbrev pub and_then {ℓ κ} : {A : Type ℓ} {B : Type κ} → Option A → (A → Option B) → Option B
and_then none f = none
and_then (some a) f = f a

-- Every element satisfies `P`.
abbrev pub All {ℓ κ} : {A : Type ℓ} → (A → Type κ) → List A → Type κ
All P [] = Unit
All P (x ∷ xs) = P x × All P xs

-- Some element satisfies `P`.
abbrev pub Any {ℓ} : {A : Type ℓ} → (A → Type 0) → List A → Type 0
Any P [] = ⊥
Any P (x ∷ xs) = P x ⊎ Any P xs
