-- ===== src/Prelude.antt =====
-- The names that the other modules share: those of the libraries, passed on, with the Boolean tests,
-- the list functions and the result types of the children.
mod Tests
mod Lists
mod Numbers
mod Fractions
pub mod Doubles
pub mod Result
pub mod Binds
pub mod Action
pub use Tests.*
pub use Lists.*
pub use Fractions.{Fraction, less, at_least, over}
pub use Numbers.{Parsed, not_finite, negative, natural}
pub use Prim.Native.Nat.{ℕ, zero, suc, ◌+◌, ◌-◌, ◌*◌, ◌/◌, ◌%◌, ◌^◌, ◌≤◌, ◌<◌, min, max}
pub use mathlib.Core.Path.{◌≡◌, refl, sym, ap, ◌∙◌, subst}
pub use mathlib.Core.Logic.{◌≢◌, ◌↔◌, ◌⊎◌, inl, inr}
pub use mathlib.Core.Bool.{Bool, true, false, not, ◌&&◌, ◌||◌}
pub use mathlib.Core.Option.{Option, none, some}
pub use mathlib.Core.List.{List, [], ◌∷◌, ◌++◌, map}
pub use native.Mathlib.Omega.{arith}
