-- ===== src/Base/Parse.antt =====
-- `str::trim`, `str::strip_suffix` at one character and `str::parse::<u64>`, over code points.
use Prim.Native.Nat.{ℕ, ◌+◌, ◌-◌, ◌*◌, ◌^◌}
use mathlib.Core.Bool.{Bool, ◌&&◌, ◌||◌}
use mathlib.Core.Option.{Option, none, some}
use mathlib.Core.List.{List, [], ◌∷◌, reverse}
use ch_chaos.Base.Tests.{ltb, leb, ◌==◌, if◌then◌else◌}

-- the property White_Space of Unicode
abbrev pub is_whitespace : ℕ → Bool
is_whitespace c =
    leb 9 c && leb c 13
    || c == 32
    || c == 0x85
    || c == 0xa0
    || c == 0x1680
    || leb 0x2000 c && leb c 0x200a
    || c == 0x2028
    || c == 0x2029
    || c == 0x202f
    || c == 0x205f
    || c == 0x3000

abbrev pub trim_start : List ℕ → List ℕ
trim_start [] = []
trim_start (c ∷ s) = if is_whitespace c then trim_start s else c ∷ s

abbrev pub trim : List ℕ → List ℕ
trim s = reverse (trim_start (reverse (trim_start s)))

abbrev pub strip_suffix : List ℕ → ℕ → Option (List ℕ)
strip_suffix [] c = none
strip_suffix (d ∷ []) c = if d == c then some [] else none
strip_suffix (d ∷ e ∷ s) c = keep d (strip_suffix (e ∷ s) c)
  where
    keep : ℕ → Option (List ℕ) → Option (List ℕ)
    keep d none = none
    keep d (some r) = some (d ∷ r)

-- the digits that follow a number; `none` at another character, and above the largest `u64`
unfoldable pub scan_u64 : ℕ → List ℕ → Option ℕ
scan_u64 n [] = some n
scan_u64 n (c ∷ s) =
    let next = n * 10 + (c - b'0') in
    if leb b'0' c && leb c b'9' && ltb next (2 ^ 64) then scan_u64 next s else none

-- one sign `+` is allowed, and at least one digit wanted
unfoldable pub parse_u64 : List ℕ → Option ℕ
unfolding scan_u64
parse_u64 [] = none
parse_u64 (c ∷ []) = scan_u64 0 (c ∷ [])
parse_u64 (c ∷ d ∷ s) = if c == b'+' then scan_u64 0 (d ∷ s) else scan_u64 0 (c ∷ d ∷ s)
