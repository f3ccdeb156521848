-- ===== src/Float.antt =====
-- The floating-point operations that the source uses, as a parameter of the development: the
-- language here has no floats. `eq` and `ge` are the IEEE comparisons, `as_u32` is the saturating
-- cast, `parse` is `str::parse::<f64>`, `literal` a literal of the source, `fixed k x` the text of
-- `{:.k}`.
use ch_chaos.Base.{ℕ, String, Bool, Option}

pub record Float (F : Type 0) : Type 0 where
  pub literal : String → F
  pub sub : F → F → F
  pub mul : F → F → F
  pub div : F → F → F
  pub fmax : F → F → F
  pub round : F → F
  pub as_u32 : F → ℕ
  pub eq : F → F → Bool
  pub ge : F → F → Bool
  pub is_nan : F → Bool
  pub parse : String → Option F
  pub fixed : ℕ → F → String
