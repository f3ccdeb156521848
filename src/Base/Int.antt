-- ===== src/Base/Int.antt =====
-- Signed integers over the native numbers, and the machine integers of the source.
use Prim.Native.Nat.{ℕ, suc, ◌+◌, ◌-◌, ◌^◌}
use mathlib.Core.Bool.{Bool}
use ch_chaos.Base.Tests.{ltb, leb, if◌then◌else◌}

-- `negsuc n` is -(n + 1).
pub data ℤ : Type 0 where
  pos : ℕ → ℤ
  negsuc : ℕ → ℤ

abbrev pub pos_part : ℤ → ℕ
pos_part (pos n) = n
pos_part (negsuc n) = 0

abbrev pub neg_part : ℤ → ℕ
neg_part (pos n) = 0
neg_part (negsuc n) = suc n

abbrev pub ltb_ℤ : ℤ → ℤ → Bool
ltb_ℤ a b = ltb (pos_part a + neg_part b) (pos_part b + neg_part a)

abbrev pub leb_ℤ : ℤ → ℤ → Bool
leb_ℤ a b = leb (pos_part a + neg_part b) (pos_part b + neg_part a)

-- `n as i64`, of a `u64`: the same 64 bits, read with a sign
abbrev pub as_i64 : ℕ → ℤ
as_i64 n = if ltb n (2 ^ 63) then pos n else negsuc (2 ^ 64 - n - 1)
