-- ===== src/Common.antt =====
-- What the models of all components share: the libraries' names, Boolean tests on numbers, lists
-- measured by native numbers, integers, and Go maps as association lists.
mod Tests
mod Lists
mod Int
mod Maps
mod Counts
pub mod Bits
pub mod Words
pub use Tests.*
pub use Lists.*
pub use Int.*
pub use Maps.*
pub use Counts.*
unfoldable pub use Maps.{lookup, insert, erase}
pub use Prim.Native.Nat.{ℕ, zero, suc, ◌+◌, ◌-◌, ◌*◌, ◌/◌, ◌%◌, ◌^◌, ◌≤◌, ◌<◌}
pub use Prim.Native.String.{String}
pub use mathlib.Core.Path.{◌≡◌, refl, sym, ap, subst, ◌∙◌}
pub use mathlib.Core.Logic.{◌≢◌, ◌↔◌, ◌⊎◌, inl, inr}
pub use mathlib.Core.Bool.{Bool, true, false, not, ◌&&◌, ◌||◌}
pub use mathlib.Core.Option.{Option, none, some}
pub use mathlib.Core.List.{List, [], ◌∷◌, ◌++◌, map}
pub use native.Mathlib.Omega.{arith}
