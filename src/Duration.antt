-- ===== src/Duration.antt =====
-- src/operator/analysis_reconciler.rs, `parse_duration_str`. The products are taken modulo 2^64, as
-- in a release build.
pub mod Units
use ch_chaos.Base.{
  ◌≡◌, refl, ℕ, ◌*◌, ◌%◌, ◌^◌, String, Option, none, some, List, codes, trim, strip_suffix,
  parse_u64,
}

abbrev pub scaled : ℕ → Option ℕ → Option ℕ
scaled k none = none
scaled k (some v) = some (v * k % 2 ^ 64)

-- `if let Some(num) = .. { .. } else { .. }`, with the number's text, if the suffix is there
abbrev pub or_else : Option (List ℕ) → (List ℕ → Option ℕ) → Option ℕ → Option ℕ
or_else (some num) f other = f num
or_else none f other = other

abbrev pub parse_trimmed : List ℕ → Option ℕ
parse_trimmed s =
    or_else (strip_suffix s b'm') (λ num. scaled 60 (parse_u64 num))
      (or_else (strip_suffix s b'h') (λ num. scaled 3600 (parse_u64 num))
        (or_else (strip_suffix s b's') parse_u64 (parse_u64 s)))

unfoldable pub parse_duration_str : String → Option ℕ
unfolding parse_u64
parse_duration_str s = parse_trimmed (trim (codes s))

half_hour : parse_duration_str " 30m" ≡ some 1800
unfolding parse_duration_str
half_hour = refl

two_hours : parse_duration_str "2h" ≡ some 7200
unfolding parse_duration_str
two_hours = refl

plain : parse_duration_str "45" ≡ some 45
unfolding parse_duration_str
plain = refl
