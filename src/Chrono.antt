-- ===== src/Chrono.antt =====
-- The operations of the crate `chrono` that the analyses use, as parameters. An operation that panics
-- out of range is `none` there.
use ch_chaos.Base.{String, Option, Result, ℤ}

pub record Chrono (DateTime TimeDelta : Type 0) : Type 0 where
  pub parse_from_rfc3339 : String → Result String DateTime
  pub to_rfc3339 : DateTime → String
  pub seconds : ℤ → Option TimeDelta
  pub add : DateTime → TimeDelta → Option DateTime
  pub sub : DateTime → TimeDelta → Option DateTime
  pub since : DateTime → DateTime → TimeDelta
  pub half : TimeDelta → TimeDelta
  pub num_seconds : TimeDelta → ℤ
