-- ===== src/Base.antt =====
-- Names that every module shares: the libraries', passed on, and those of the children: Boolean
-- tests, Go's text functions on ASCII, and tables as lists of rows. `Base.Int` has Go's int64.
mod Tests
mod Text
mod Table
mod Lists
mod Order
pub mod Int
pub mod Hex
unfoldable pub use Tests.*
unfoldable pub use Text.*
unfoldable pub use Table.*
unfoldable pub use Order.*
pub use Lists.*
pub use Prim.Native.Nat.{Ordering, ℕ, zero, suc, ◌+◌, ◌-◌, ◌*◌, ◌/◌, ◌%◌, ◌^◌, ◌≤◌, ◌<◌}
pub use Prim.Native.String.{String}
pub use mathlib.Core.Path.{◌≡◌, refl, sym, ap, ◌∙◌, subst}
pub use mathlib.Core.Logic.{◌≢◌, ◌↔◌, ◌⊎◌, inl, inr}
pub use mathlib.Core.Bool.{Bool, true, false, not, ◌&&◌, ◌||◌}
pub use mathlib.Core.Option.{Option, none, some}
pub use mathlib.Core.List.{List, [], ◌∷◌, ◌++◌, map}
pub use native.Mathlib.Omega.{arith}
pub use text.Mathlib.TextEquality.{eq_iff}
