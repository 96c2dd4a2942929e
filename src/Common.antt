-- ===== src/Common.antt =====
-- The names that the other modules share: the libraries', passed on, and those of the children.
mod Tests
mod Equality
mod Lists
mod Sort
pub mod BTreeMap
pub use Tests.*
pub use Equality.*
pub use Lists.*
unfoldable pub use Sort.{sort_by}
pub use Sort.{any-sort_by, sort_by-All, sort_by-perm, IsSorted, sort_by-IsSorted}
pub use Prim.Native.Nat.{ℕ, zero, suc, ◌+◌, ◌-◌, ◌*◌, ◌/◌, ◌%◌, ◌^◌, ◌≤◌, ◌<◌, min}
pub use Prim.Native.String.{String}
pub use mathlib.Core.Path.{◌≡◌, refl, sym, ap, ◌∙◌}
pub use mathlib.Core.Logic.{◌≢◌, ◌↔◌, ◌⊎◌, inl, inr}
pub use mathlib.Core.Bool.{Bool, true, false, not, ◌&&◌, ◌||◌}
pub use mathlib.Core.Option.{Option, none, some}
pub use mathlib.Core.List.{
  List, [], ◌∷◌, ◌++◌, map, append-nil, append_assoc, reverse, reverse-cons, reverse-append,
  reverse-reverse,
}
pub use native.Mathlib.Omega.{arith}
