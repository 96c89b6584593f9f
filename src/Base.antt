-- ===== src/Base.antt =====
-- Shared vocabulary: names of the libraries passed on, Boolean tests, lists, integers and maps.
mod Tests
mod Lists
mod Int
mod Keys
pub mod Map
pub mod Order
pub mod Count
pub mod Decimal
pub use Tests.*
pub use Lists.*
pub use Int.*
pub use Keys.*
pub use Prim.Native.Nat.{ℕ, zero, suc, ◌+◌, ◌-◌, ◌*◌, ◌/◌, ◌%◌, ◌^◌, ◌≤◌, ◌<◌, min}
pub use Prim.Native.String.{String}
pub use mathlib.Core.Path.{◌≡◌, refl, sym, ap, subst, ◌∙◌}
pub use mathlib.Core.Logic.{◌≢◌, ◌↔◌, ◌⊎◌, inl, inr}
pub use mathlib.Core.Bool.{Bool, true, false, not, ◌&&◌, ◌||◌}
pub use mathlib.Core.Option.{Option, none, some}
pub use mathlib.Core.List.{List, [], ◌∷◌, ◌++◌, map, reverse, Perm, Mem}
pub use native.Mathlib.Omega.{arith}
