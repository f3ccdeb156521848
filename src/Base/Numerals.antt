-- ===== src/Base/Numerals.antt =====
-- The printing (`decimal`) and the reading (`parse_u64`) of decimal numerals together.
use Prim.Native.Nat.{ℕ, zero, suc, ◌+◌, ◌-◌, ◌*◌, ◌/◌, ◌%◌, ◌^◌, ◌<◌}
use Prim.Native.Char.{code}
use Prim.Native.String.{String}
use mathlib.Core.Path.{◌≡◌, refl, ◌∙◌, ap}
use mathlib.Core.Logic.{dif_pos, dif_neg}
use mathlib.Core.Bool.{true}
use ch_chaos.Base.Tests.{ltb, leb}
use mathlib.Core.Option.{some}
use mathlib.Core.List.{List, [], ◌∷◌}
use mathlib.Core.WellFounded.{Acc}
use native.Mathlib.Decide.{dec_lt}
use native.Mathlib.Bridge.{le_prop}
use native.Mathlib.Omega.{arith}
use ch_chaos.Base.Text.{digit, emit, decimal, codes, lt_wf}
use ch_chaos.Base.Parse.{scan_u64, parse_u64}

code-digit : (d : ℕ) → d < 10 → code (digit d) ≡ 48 + d
code-digit zero h = refl
code-digit (suc zero) h = refl
code-digit (suc (suc zero)) h = refl
code-digit (suc (suc (suc zero))) h = refl
code-digit (suc (suc (suc (suc zero)))) h = refl
code-digit (suc (suc (suc (suc (suc zero))))) h = refl
code-digit (suc (suc (suc (suc (suc (suc zero)))))) h = refl
code-digit (suc (suc (suc (suc (suc (suc (suc zero))))))) h = refl
code-digit (suc (suc (suc (suc (suc (suc (suc (suc zero)))))))) h = refl
code-digit (suc (suc (suc (suc (suc (suc (suc (suc (suc zero))))))))) h = refl
code-digit (suc (suc (suc (suc (suc (suc (suc (suc (suc (suc d)))))))))) h = absurd (omega arith)

scan-digit :
    (acc d : ℕ) (s : List ℕ)
    → d < 10
    → acc * 10 + d < 2 ^ 64
    → scan_u64 acc (code (digit d) ∷ s) ≡ scan_u64 (acc * 10 + d) s
unfolding scan_u64
scan-digit acc d s h fits =
    let value : acc * 10 + (48 + d - 48) ≡ acc * 10 + d = omega arith in
    let low : leb 48 (48 + d) ≡ true = ground arith in
    let high : leb (48 + d) 57 ≡ true = ground arith in
    let small : ltb (acc * 10 + d) (2 ^ 64) ≡ true = ground arith in
    rw (code-digit d h, value, low, high, small)

scan-emit :
    (n : ℕ) (w : Acc ◌<◌ n) (out : String)
    → n < 2 ^ 64
    → scan_u64 0 (codes (emit n w out)) ≡ scan_u64 n (codes out)
unfolding emit
scan-emit n (Acc.intro _ smaller) out h = elim (dec_lt 0 n) [
  | yes p ↦
      let d = n % 10 in
      let step = scan-digit (n / 10) d (codes out) (omega arith) (omega arith) in
      let whole : n / 10 * 10 + d ≡ n = omega arith in
      rw (dif_pos _ le_prop p) (
        scan-emit (n / 10) (smaller (n / 10) (omega arith)) (String.◌∷◌ (digit d) out) (omega arith)
        ∙ step
        ∙ ap (λ k. scan_u64 k (codes out)) whole)
  | no p ↦ rw (dif_neg _ p) (ap (λ k. scan_u64 k (codes out)) (omega arith))
]

-- A text of digits alone is read as its number.
parse-scan : (s : List ℕ) (n : ℕ) → scan_u64 0 s ≡ some (suc n) → parse_u64 s ≡ some (suc n)
unfolding parse_u64 scan_u64
parse-scan [] n h = ground arith
parse-scan (c ∷ []) n h = h
parse-scan (c ∷ d ∷ s) n h = ground arith

-- Reading the decimal numeral of a `u64` gives the number back.
pub parse-decimal : (n : ℕ) → n < 2 ^ 64 → parse_u64 (codes (decimal n)) ≡ some n
unfolding decimal
parse-decimal zero h = unfold parse_u64 in refl
parse-decimal (suc n) h =
    parse-scan (codes (emit (suc n) (lt_wf.apply (suc n)) "")) n
      (scan-emit (suc n) (lt_wf.apply (suc n)) "" h ∙ (unfold scan_u64 in refl))
