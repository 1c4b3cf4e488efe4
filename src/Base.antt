-- ===== src/Base.antt =====
-- The names that the other modules share: the libraries' names, Boolean tests on numbers, list
-- functions over the native numbers, byte texts and Go's maps.
mod Tests
mod Lists
mod Texts
mod Paths
mod Clean
mod Dict
mod Decimals
pub mod Int
pub mod Result
pub use Tests.*
pub use Lists.*
pub use Texts.*
pub use Paths.*
pub use Clean.*
unfoldable pub use Decimals.*
pub use Prim.Native.Nat.{ℕ, zero, suc, ◌+◌, ◌-◌, ◌*◌, ◌/◌, ◌%◌, ◌^◌, ◌≤◌, ◌<◌}
pub use Prim.Native.String.{String}
pub use mathlib.Core.Path.{◌≡◌, refl, sym, ap, ◌∙◌, subst, fun_ext}
pub use mathlib.Core.Logic.{◌≢◌, ◌↔◌, ◌⊎◌, inl, inr}
pub use mathlib.Core.Bool.{Bool, true, false, not, ◌&&◌, ◌||◌}
pub use mathlib.Core.Option.{Option, none, some}
pub use mathlib.Core.List.{List, [], ◌∷◌, ◌++◌, map}
pub use native.Mathlib.Omega.{arith}
unfoldable pub use Dict.{lookup, insert, remove}
pub use Dict.{
  lookup-insert_other, lookup-remove_other, lookup-remove_self, lookup-insert, lookup-remove,
  lookup-insert_self, values, All-lookup, All-remove, All-insert, Unique, Unique-remove,
  Unique-insert,
}
