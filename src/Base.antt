-- ===== src/Base.antt =====
-- The names that the modules share: the library's, passed on, Boolean tests on the native numbers,
-- lists indexed by them (`Seq` and `Vec` of the source), and machine words.
mod Tests
mod Lists
mod Indexed
mod Words
mod Results
pub use Tests.*
pub use Lists.*
pub use Indexed.*
pub use Words.*
pub use Results.*
pub use Prim.Native.Nat.{ℕ, zero, suc, ◌+◌, ◌-◌, ◌*◌, ◌/◌, ◌%◌, ◌^◌, ◌≤◌, ◌<◌}
pub use mathlib.Core.Path.{◌≡◌, refl, sym, ap, ap₂, ◌∙◌}
pub use mathlib.Core.Logic.{◌≢◌, ◌⊎◌, inl, inr}
pub use mathlib.Core.Bool.{Bool, true, false, not, ◌&&◌, ◌||◌}
pub use mathlib.Core.Option.{Option, none, some}
pub use mathlib.Core.List.{List, [], ◌∷◌, ◌++◌, map}
pub use native.Mathlib.Omega.{arith}
