-- ===== src/Base/Order.antt =====
-- The order of texts: that of the bytes of their UTF-8, which is that of their code points.
use Prim.Native.Nat.{ℕ}
use Prim.Native.Char.{code}
use Prim.Native.String.{String}
use mathlib.Core.Path.{◌≡◌, refl}
use mathlib.Core.Bool.{Bool, true, false, ◌&&◌, ◌||◌}
use mathlib.Core.List.{List, [], ◌∷◌}
use native.Mathlib.Omega.{arith}
use text.Mathlib.TextEquality.{Char-path}
use ch_chaos.Base.Tests.{ltb, ◌==◌}
use ch_chaos.Base.Text.{codes}

unfoldable le_codes : List ℕ → List ℕ → Bool
le_codes [] t = true
le_codes (c ∷ s) [] = false
le_codes (c ∷ s) (d ∷ t) = ltb c d || (c == d) && le_codes s t

unfoldable pub text_le : String → String → Bool
unfolding le_codes
text_le s t = le_codes (codes s) (codes t)

codes_injective : (s t : String) → codes s ≡ codes t → s ≡ t
codes_injective String.[] String.[] h = refl
codes_injective String.[] (String.◌∷◌ d t) h = cc h
codes_injective (String.◌∷◌ c s) String.[] h = cc h
codes_injective (String.◌∷◌ c s) (String.◌∷◌ d t) h =
    let p : code c ≡ code d = cc h in
    let q : codes s ≡ codes t = cc h in
    λ i. String.◌∷◌ (Char-path c d p i) (codes_injective s t q i)

le_codes_total : (s t : List ℕ) → le_codes s t ≡ false → le_codes t s ≡ true
unfolding le_codes
le_codes_total [] t h = cc h
le_codes_total (c ∷ s) [] h = refl
le_codes_total (c ∷ s) (d ∷ t) h = ground (arith, le_codes_total s t)

le_codes_antisym : (s t : List ℕ) → le_codes s t ≡ true → le_codes t s ≡ true → s ≡ t
unfolding le_codes
le_codes_antisym [] [] h k = refl
le_codes_antisym [] (d ∷ t) h k = cc k
le_codes_antisym (c ∷ s) [] h k = cc h
le_codes_antisym (c ∷ s) (d ∷ t) h k = ground (arith, le_codes_antisym s t)

le_codes_trans : (s t u : List ℕ) → le_codes s t ≡ true → le_codes t u ≡ true → le_codes s u ≡ true
unfolding le_codes
le_codes_trans [] t u h k = refl
le_codes_trans (c ∷ s) [] u h k = cc h
le_codes_trans (c ∷ s) (d ∷ t) [] h k = cc k
le_codes_trans (c ∷ s) (d ∷ t) (e ∷ u) h k = ground (arith, le_codes_trans s t u)

pub text_le_total : (s t : String) → text_le s t ≡ false → text_le t s ≡ true
unfolding text_le
text_le_total s t = le_codes_total (codes s) (codes t)

pub text_le_antisym : (s t : String) → text_le s t ≡ true → text_le t s ≡ true → s ≡ t
unfolding text_le
text_le_antisym s t h k = codes_injective s t (le_codes_antisym (codes s) (codes t) h k)

pub text_le_trans : (s t u : String) → text_le s t ≡ true → text_le t u ≡ true → text_le s u ≡ true
unfolding text_le
text_le_trans s t u = le_codes_trans (codes s) (codes t) (codes u)
