-- ===== src/Prelude.antt =====
-- Names that every module shares: the library's, passed on, and those of the children, which hold
-- Boolean tests, lists over the native numbers, 64-bit integers, text, sorting and Go maps.
mod Tests
mod Lists
pub mod Results
pub mod Int
pub mod Text
pub mod Sort
pub mod Dict
pub mod Keyed
pub mod Decimal
pub mod Splitting
pub use Tests.*
pub use Lists.*
pub use Prim.Native.Nat.{ℕ, zero, suc, ◌+◌, ◌-◌, ◌*◌, ◌/◌, ◌%◌, ◌^◌, ◌≤◌, ◌<◌}
pub use Prim.Native.String.{String}
pub use mathlib.Core.Path.{◌≡◌, refl, sym, ap, ◌∙◌, subst}
pub use mathlib.Core.Logic.{◌≢◌, ◌↔◌, ◌⊎◌, inl, inr}
pub use mathlib.Core.Bool.{Bool, true, false, not, ◌&&◌, ◌||◌}
pub use mathlib.Core.Option.{Option, none, some}
pub use mathlib.Core.List.{List, [], ◌∷◌, ◌++◌, map}
pub use native.Mathlib.Omega.{arith}
