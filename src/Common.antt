-- ===== src/Common.antt =====
-- Names that the components share: the libraries' names passed on, Boolean tests, lists measured
-- by native numbers, byte strings, bit fields and decimal numbers.
mod Tests
mod Lists
mod Text
mod Bits
pub mod Outcome
pub mod Finite
pub mod Int
pub mod Decimal
pub mod Fgets
pub mod Sorting
pub use Tests.*
unfoldable pub use Lists.*
unfoldable pub use Text.*
pub use Bits.*
pub use Prim.Native.Nat.{ℕ, zero, suc, ◌+◌, ◌-◌, ◌*◌, ◌/◌, ◌%◌, ◌^◌, ◌≤◌, ◌<◌, bit_and, bit_or}
pub use mathlib.Core.Path.{◌≡◌, refl, sym, ap, ◌∙◌}
pub use mathlib.Core.Logic.{◌≢◌, ◌↔◌, ◌⊎◌, inl, inr}
pub use mathlib.Core.Bool.{Bool, true, false, not, ◌&&◌, ◌||◌}
pub use mathlib.Core.Option.{Option, none, some}
pub use mathlib.Core.List.{List, [], ◌∷◌, ◌++◌, map, append-nil, append_assoc}
pub use native.Mathlib.Omega.{arith}
