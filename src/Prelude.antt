-- ===== src/Prelude.antt =====
-- The names that the other modules share: the libraries' names passed on, tests on numbers, lists
-- measured by native numbers, sets and maps in insertion order, and results with an error.
mod Tests
mod Lists
mod Names
mod Maps
mod Integer
mod Exceptions
mod Texts
pub mod Actions
pub use Tests.*
pub use Lists.*
pub use Names.*
pub use Maps.*
pub use Exceptions.*
pub use Integer.*
pub use Texts.*
pub use Prim.Native.Nat.{ℕ, zero, suc, ◌+◌, ◌-◌, ◌*◌, ◌≤◌, ◌<◌}
pub use Prim.Native.String.{String}
pub use mathlib.Core.Path.{◌≡◌, refl, sym, ap, subst, ◌∙◌}
pub use mathlib.Core.Logic.{◌≢◌, ◌↔◌, ◌⊎◌, inl, inr}
pub use mathlib.Core.Bool.{Bool, true, false, not, ◌&&◌, ◌||◌}
pub use mathlib.Core.Option.{Option, none, some}
pub use mathlib.Core.List.{List, [], ◌∷◌, ◌++◌, map}
pub use native.Mathlib.Omega.{arith}
pub use text.Mathlib.Text.{◌==◌}
pub use text.Mathlib.TextEquality.{eq_iff}
