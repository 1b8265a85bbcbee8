-- ===== src/Base.antt =====
-- Names that the other modules share: the libraries', passed on, and those of the children.
mod Tests
mod Lists
mod Strings
mod Results
mod Int
pub mod Dicts
pub use Tests.*
pub use Lists.*
unfoldable pub use Strings.*
pub use Results.*
pub use Int.*
pub use Prim.Native.Nat.{ℕ, zero, suc, ◌+◌, ◌-◌, ◌*◌, ◌/◌, ◌%◌, ◌≤◌, ◌<◌, min, max}
pub use mathlib.Core.Path.{◌≡◌, refl, sym, ap, ap₂, subst, ◌∙◌}
pub use mathlib.Core.Logic.{◌≢◌, ◌↔◌, ◌⊎◌, inl, inr}
pub use mathlib.Core.Bool.{Bool, true, false, not, ◌&&◌, ◌||◌}
pub use mathlib.Core.Option.{Option, none, some}
pub use mathlib.Core.List.{
  List, [], ◌∷◌, ◌++◌, map, reverse, foldr, append-nil, append_assoc, reverse-cons,
}
pub use native.Mathlib.Omega.{arith}
