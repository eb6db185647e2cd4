-- ===== src/Base.antt =====
-- Shared vocabulary of the development: the library names that the other modules use, tests on
-- numbers and texts, lists measured by native numbers, and keyed tables for SQL tables and hash
-- maps.
pub mod Tests
pub mod Lists
pub mod Bytes
pub mod Chain
pub mod Table
pub use Tests.*
pub use Chain.*
pub use Lists.*
pub use Bytes.{Text, text, eq_text_self, eq_text_iff}
unfoldable pub use Bytes.{eq_text, is_empty}
pub use Prim.Native.Nat.{ℕ, zero, suc, ◌+◌, ◌-◌, ◌*◌, ◌/◌, ◌%◌, ◌^◌, ◌≤◌, ◌<◌, min, max}
pub use mathlib.Core.Path.{◌≡◌, refl, sym, ap, subst, ◌∙◌}
pub use mathlib.Core.Logic.{◌≢◌, ◌↔◌, ◌⊎◌, inl, inr}
pub use mathlib.Core.Bool.{Bool, true, false, not, ◌&&◌, ◌||◌}
pub use mathlib.Core.Option.{Option, none, some}
pub use mathlib.Core.List.{List, [], ◌∷◌, ◌++◌, map}
pub use native.Mathlib.Omega.{arith}
