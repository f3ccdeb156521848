-- ===== src/Base/Text.antt =====
-- Texts: equality, concatenation, decimal numerals, and maps keyed by texts.
use Prim.Native.Nat.{ℕ, zero, suc, ◌/◌, ◌%◌, ◌<◌}
use Prim.Native.Char.{Char, code}
use Prim.Native.String.{String, ◌++◌}
use mathlib.Core.Path.{◌≡◌, refl}
use mathlib.Core.Logic.{dite}
use mathlib.Core.Bool.{Bool}
use mathlib.Core.Option.{Option, none, some}
use mathlib.Core.List.{List, [], ◌∷◌}
use mathlib.Core.WellFounded.{Acc, WellFounded}
use native.Mathlib.Decide.{dec_lt}
use native.Mathlib.Omega.{arith}
use text.Mathlib.Text.{◌==◌}
use text.Mathlib.TextEquality.{eq_iff}
use ch_chaos.Base.Tests.{if◌then◌else◌}

-- `==` on texts
abbrev pub str_eq : String → String → Bool
str_eq s t = s == t

-- `format!`: the parts, one after the other
abbrev pub format : List String → String
format [] = ""
format (s ∷ parts) = s ++ format parts

abbrev pub digit : ℕ → Char
digit zero = "0"
digit (suc zero) = "1"
digit (suc (suc zero)) = "2"
digit (suc (suc (suc zero))) = "3"
digit (suc (suc (suc (suc zero)))) = "4"
digit (suc (suc (suc (suc (suc zero))))) = "5"
digit (suc (suc (suc (suc (suc (suc zero)))))) = "6"
digit (suc (suc (suc (suc (suc (suc (suc zero))))))) = "7"
digit (suc (suc (suc (suc (suc (suc (suc (suc zero)))))))) = "8"
digit _ = "9"

below : (k n : ℕ) → n < k → Acc ◌<◌ n
below zero n h = elim h [ ]
below (suc k) n h = Acc.intro n (λ m hm. below k m (omega arith))

pub lt_wf : WellFounded ◌<◌
unfolding below
lt_wf = record { apply = λ n. below (suc n) n (omega arith) }

unfoldable pub emit : (n : ℕ) → Acc ◌<◌ n → String → String
emit n (Acc.intro _ smaller) out =
    dite (dec_lt 0 n)
      (λ h. emit (n / 10) (smaller (n / 10) (omega arith)) (String.◌∷◌ (digit (n % 10)) out))
      (λ _. out)

-- `to_string` of an unsigned integer
unfoldable pub decimal : ℕ → String
unfolding emit lt_wf dec_lt
decimal zero = "0"
decimal (suc n) = emit (suc n) (lt_wf.apply (suc n)) ""

decimal_300 : decimal 300 ≡ "300"
unfolding decimal
decimal_300 = refl

-- the code points of a text
abbrev pub codes : String → List ℕ
codes String.[] = []
codes (String.◌∷◌ c s) = code c ∷ codes s

-- `BTreeMap<String, String>` and its like as an association list
module _ {ℓ} {V : Type ℓ} where
  abbrev pub lookup : String → List (String × V) → Option V
  lookup k [] = none
  lookup k ((j, v) ∷ m) = if j == k then some v else lookup k m

pub str_eq_refl : (s : String) → str_eq s s ≡ Bool.true
str_eq_refl s = (eq_iff s s).1 refl

pub str_eq_iff : (s t : String) → (str_eq s t ≡ Bool.true) → s ≡ t
str_eq_iff s t = (eq_iff s t).0
