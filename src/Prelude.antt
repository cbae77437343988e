-- ===== src/Prelude.antt =====
-- The names that the components share: the libraries', passed on, and those of the children:
-- Boolean tests, lists over the native numbers, equality as an interface, and dictionaries.
mod Tests
mod Lists
mod Equality
pub mod Map
pub mod Distinct
pub mod Texts
pub mod Positions
pub mod Options
pub mod Structures
pub mod Codes
pub use Tests.*
unfoldable pub use Lists.*
pub use Equality.{PartialEq, ◌==◌, nat_eq, string_eq, pair_eq, beq_refl, beq→eq, beq_false, beq_ne}
unfoldable pub use Equality.{contains}
pub use Prim.Native.Nat.{ℕ, zero, suc, ◌+◌, ◌-◌, ◌*◌, ◌/◌, ◌%◌, ◌^◌, ◌≤◌, ◌<◌, min, max}
pub use Prim.Native.String.{String}
pub use mathlib.Core.Path.{◌≡◌, refl, sym, ap, subst, ◌∙◌}
pub use mathlib.Core.Logic.{◌≢◌, ◌↔◌, ◌⊎◌, inl, inr}
pub use mathlib.Core.Bool.{Bool, true, false, not, ◌&&◌, ◌||◌}
pub use mathlib.Core.Option.{Option, none, some}
pub use mathlib.Core.List.{List, [], ◌∷◌, ◌++◌, map}
pub use native.Mathlib.Omega.{arith}
