-- ===== src/Prelude.antt =====
-- The names that every other module shares: the libraries', passed on, and those of the children.
mod Tests
mod Classes
mod Lists
mod Members
mod Keys
mod Rows
mod Distinct
mod SortMembers
pub mod Sort
mod Text
pub mod Int
unfoldable pub use Tests.*
unfoldable pub use Classes.*
pub use Lists.*
pub use Members.*
pub use Keys.*
pub use Rows.*
pub use Distinct.*
pub use SortMembers.*
unfoldable pub use Text.*
pub use Prim.Native.Nat.{ℕ, zero, suc, ◌+◌, ◌-◌, ◌*◌, ◌/◌, ◌≤◌, ◌<◌, min, max}
pub use Prim.Native.String.{String}
pub use mathlib.Core.Path.{◌≡◌, refl, sym, ap, ◌∙◌, subst}
pub use mathlib.Core.Logic.{◌≢◌, ◌↔◌, ◌⊎◌, inl, inr}
pub use mathlib.Core.Bool.{Bool, true, false, not, ◌&&◌, ◌||◌}
pub use mathlib.Core.Option.{Option, none, some}
pub use mathlib.Core.List.{List, [], ◌∷◌, ◌++◌, map, Memᴰ}
pub use mathlib.Core.List.Memᴰ
pub use native.Mathlib.Omega.{arith}
