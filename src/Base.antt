-- ===== src/Base.antt =====
-- Names that every module of the development shares: those of the libraries, passed on, and those of
-- the children (tests on numbers, lists, texts, results, and actions that log their calls).
mod Tests
mod Lists
mod Text
mod Results
mod Int
mod Parse
mod Sort
mod Order
pub mod Ascending
pub mod Total
pub mod Numerals
pub use Tests.*
pub use Lists.*
unfoldable pub use Text.*
pub use Results.*
pub use Int.*
unfoldable pub use Parse.*
unfoldable pub use Sort.*
unfoldable pub use Order.*
pub use Prim.Native.Nat.{ℕ, zero, suc, ◌+◌, ◌-◌, ◌*◌, ◌/◌, ◌%◌, ◌^◌, ◌≤◌, ◌<◌, min, max}
pub use Prim.Native.String.{String}
pub use mathlib.Core.Path.{◌≡◌, refl, sym, ap, ◌∙◌, subst}
pub use mathlib.Core.Logic.{◌≢◌, ◌↔◌, ◌⊎◌, inl, inr}
pub use mathlib.Core.Bool.{Bool, true, false, not, ◌&&◌, ◌||◌}
pub use mathlib.Core.Option.{Option, none, some}
pub use mathlib.Core.List.{List, [], ◌∷◌, ◌++◌, map}
pub use native.Mathlib.Omega.{arith}
