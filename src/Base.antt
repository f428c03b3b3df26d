-- ===== src/Base.antt =====
-- The names that every part of the development shares: the libraries', passed on, the Boolean tests
-- on numbers, lists measured by native numbers, texts, tables of rows and stable sorting.
mod Tests
mod Lists
mod Texts
mod Tables
mod Sort
mod Maps
pub use Tests.*
pub use Lists.*
unfoldable pub use Texts.*
pub use Tables.*
pub use Sort.*
pub use Maps.*
pub use Prim.Native.Nat.{ℕ, zero, suc, ◌+◌, ◌-◌, ◌*◌, ◌/◌, ◌%◌, ◌≤◌, ◌<◌, min, max}
pub use Prim.Native.String.{String}
pub use mathlib.Core.Path.{◌≡◌, refl, sym, ap, ◌∙◌, subst}
pub use mathlib.Core.Logic.{◌≢◌, ◌↔◌, ◌⊎◌, inl, inr}
pub use mathlib.Core.Bool.{Bool, true, false, not, ◌&&◌, ◌||◌}
pub use mathlib.Core.Option.{Option, none, some}
pub use mathlib.Core.List.{List, [], ◌∷◌, ◌++◌, map}
pub use native.Mathlib.Omega.{arith}
