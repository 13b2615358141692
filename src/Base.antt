-- ===== src/Base.antt =====
-- The names that the other modules share: the libraries', passed on, and those of the children
-- below. No code of the repository is modelled here.
mod Logic
mod Lists
mod Texts
mod Maps
mod Strings
mod Ints
pub use Logic.*
unfoldable pub use Lists.*
unfoldable pub use Texts.*
unfoldable pub use Maps.*
unfoldable pub use Strings.*
pub use Ints.*
pub use Prim.Native.Nat.{ℕ, zero, suc, ◌+◌, ◌-◌, ◌*◌, ◌/◌, ◌%◌, ◌^◌, ◌≤◌, ◌<◌, min, max}
pub use mathlib.Core.Path.{◌≡◌, refl, sym, ap, ◌∙◌, subst}
pub use mathlib.Core.Logic.{◌≢◌, ◌↔◌, ◌⊎◌, inl, inr}
pub use mathlib.Core.Bool.{Bool, true, false, not, ◌&&◌, ◌||◌}
pub use mathlib.Core.Option.{Option, none, some}
pub use mathlib.Core.List.{List, [], ◌∷◌, ◌++◌, map}
pub use native.Mathlib.Omega.{arith}
