-- ===== src/Prelude.antt =====
-- The names that the other modules share: those of the libraries, passed on, and of the children:
-- Boolean tests on numbers, lists over the native numbers, and Rust's `Result`.
mod Tests
mod Lists
mod Results
mod Search
mod Bits
pub use Tests.*
pub use Lists.*
pub use Results.*
pub use Search.*
pub use Bits.*
pub use Prim.Native.Nat.{ℕ, zero, suc, ◌+◌, ◌-◌, ◌*◌, ◌/◌, ◌%◌, ◌^◌, ◌≤◌, ◌<◌, min, max}
pub use mathlib.Core.Path.{◌≡◌, refl, sym, ap, subst, ◌∙◌}
pub use mathlib.Core.Logic.{◌≢◌, ◌↔◌, ◌⊎◌, inl, inr}
pub use mathlib.Core.Bool.{Bool, true, false, not, ◌&&◌, ◌||◌}
pub use mathlib.Core.Option.{Option, none, some}
pub use mathlib.Core.List.{List, [], ◌∷◌, ◌++◌, map, foldl}
pub use native.Mathlib.Omega.{arith}
