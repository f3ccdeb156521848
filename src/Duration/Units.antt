-- ===== src/Duration/Units.antt =====
-- `parse_duration_str` (src/operator/analysis_reconciler.rs) on decimal numerals with a unit.
use Prim.Native.String
use Prim.Native.String.{String}
use text.Mathlib.TextLemmas.{cons-append, nil-append}
use mathlib.Core.List.{reverse, reverse-append, reverse-reverse}
use ch_chaos.Base.{
  ℕ, ◌*◌, ◌%◌, ◌^◌, ◌<◌, ◌≡◌, refl, sym, ◌∙◌, ap, false, none, some, List, [], ◌∷◌, ◌++◌, arith,
  codes, trim, is_whitespace, strip_suffix, parse_u64, scan_u64, decimal, if◌then◌else◌, ◌==◌,
}
use ch_chaos.Base.Numerals.{parse-decimal}
use ch_chaos.Duration.{parse_duration_str}

codes-append : (s t : String) → codes (String.◌++◌ s t) ≡ codes s ++ codes t
codes-append String.[] t = rw nil-append
codes-append (String.◌∷◌ c s) t = rw (cons-append, codes-append s t)

strip_suffix-append :
    (s : List ℕ) (c d : ℕ) → strip_suffix (s ++ (c ∷ [])) d ≡ (if c == d then some s else none)
strip_suffix-append [] c d = refl
strip_suffix-append (x ∷ []) c d = ground arith
strip_suffix-append (x ∷ y ∷ s) c d = ground (arith, strip_suffix-append (y ∷ s) c d)

-- A text that neither begins nor ends with white space is left alone.
trim_id :
    (s : List ℕ) (b e : ℕ)
    → is_whitespace b ≡ false
    → is_whitespace e ≡ false
    → trim (b ∷ (s ++ (e ∷ []))) ≡ b ∷ (s ++ (e ∷ []))
trim_id s b e hb he =
    rw (hb, reverse-append (b ∷ s) (e ∷ []), he)
      (ap reverse (sym (reverse-append (b ∷ s) (e ∷ []))) ∙ reverse-reverse (b ∷ (s ++ (e ∷ []))))

-- What is read as a number begins with a digit or with the sign.
parsed_head :
    (s : List ℕ) (n : ℕ)
    → parse_u64 s ≡ some n
    → (b : ℕ) × (rest : List ℕ) × (s ≡ b ∷ rest) × (is_whitespace b ≡ false)
unfolding parse_u64 scan_u64
parsed_head [] n h = ground arith
parsed_head (c ∷ []) n h = (c, [], refl, ground arith)
parsed_head (c ∷ d ∷ s) n h = (c, d ∷ s, refl, ground arith)

trimmed :
    (s : List ℕ) (n unit : ℕ)
    → parse_u64 s ≡ some n
    → is_whitespace unit ≡ false
    → trim (s ++ (unit ∷ [])) ≡ s ++ (unit ∷ [])
trimmed s n unit h hu = let (b, rest, e, hb) = parsed_head s n h in rw e (trim_id rest b unit hb hu)

module _ (text : String) (n : ℕ) (number : parse_u64 (codes text) ≡ some n) where
  minutes : parse_duration_str (String.◌++◌ text "m") ≡ some (n * 60 % 2 ^ 64)
  unfolding parse_duration_str
  minutes = rw (
    codes-append text "m",
    trimmed (codes text) n b'm' number refl,
    strip_suffix-append (codes text) b'm' b'm',
    number,
  )

  hours : parse_duration_str (String.◌++◌ text "h") ≡ some (n * 3600 % 2 ^ 64)
  unfolding parse_duration_str
  hours = rw (
    codes-append text "h",
    trimmed (codes text) n b'h' number refl,
    strip_suffix-append (codes text) b'h' b'm',
    strip_suffix-append (codes text) b'h' b'h',
    number,
  )

  seconds : parse_duration_str (String.◌++◌ text "s") ≡ some n
  unfolding parse_duration_str
  seconds = rw (
    codes-append text "s",
    trimmed (codes text) n b's' number refl,
    strip_suffix-append (codes text) b's' b'm',
    strip_suffix-append (codes text) b's' b'h',
    strip_suffix-append (codes text) b's' b's',
    number,
  )

-- The decimal numeral of a `u64`, followed by `s`, `m` or `h`, is read as that many seconds, minutes
-- or hours in seconds; the product is taken modulo 2^64.
pub parse_duration_str-decimal :
    (n : ℕ)
    → n < 2 ^ 64
    → (parse_duration_str (String.◌++◌ (decimal n) "s") ≡ some n)
      × (parse_duration_str (String.◌++◌ (decimal n) "m") ≡ some (n * 60 % 2 ^ 64))
      × (parse_duration_str (String.◌++◌ (decimal n) "h") ≡ some (n * 3600 % 2 ^ 64))
parse_duration_str-decimal n h =
    let number = parse-decimal n h in
    (seconds (decimal n) n number, minutes (decimal n) n number, hours (decimal n) n number)
