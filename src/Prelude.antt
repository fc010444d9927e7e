-- ===== src/Prelude.antt =====
-- The names that the modules of the library share: those of the libraries, passed on, and the
-- helpers of the children (tests, lists, integers).
mod Tests
mod Lists
mod Results
mod Sort
pub mod Int
pub mod Floats
pub mod Whole
pub use Tests.*
pub use Lists.*
pub use Results.*
pub use Sort.*
pub use Prim.Native.Nat.{ℕ, zero, suc, ◌+◌, ◌-◌, ◌*◌, ◌/◌, ◌%◌, ◌≤◌, ◌<◌, max, min}
pub use mathlib.Core.Path.{◌≡◌, refl, sym, ap, ◌∙◌, subst, ap₂}
pub use mathlib.Core.Logic.{◌≢◌, ◌↔◌, ◌⊎◌, inl, inr}
pub use mathlib.Core.Bool.{Bool, true, false, not, ◌&&◌, ◌||◌}
pub use mathlib.Core.Option.{Option, none, some}
pub use mathlib.Core.List.{List, [], ◌∷◌, ◌++◌, map}
pub use native.Mathlib.Omega.{arith}
