-- ===== src/Base.antt =====
-- The names that the other modules share: those of the libraries and of the children.
mod Tests
mod Word
mod Status
mod Lists
mod Postcondition
mod BitField
pub mod Bits
pub use Tests.*
pub use Word.*
pub use Status.*
pub use Lists.*
pub use Postcondition.{
  Ends, Ends-try, Ends-mono, WhereDone, WhereDone-Ends, WhereDone-mono, WhereDone-both,
  WhereDone-try,
}
pub use BitField.*
pub use Prim.Native.Nat.{ℕ, zero, suc, ◌+◌, ◌-◌, ◌*◌, ◌/◌, ◌%◌, ◌^◌, ◌≤◌, ◌<◌, min, bit_and, bit_or}
pub use mathlib.Core.Path.{◌≡◌, refl, sym, ap, ap₂, ◌∙◌, fun_ext}
pub use mathlib.Core.Logic.{◌≢◌, ◌↔◌, ◌⊎◌, inl, inr}
pub use mathlib.Core.Bool.{Bool, true, false, ◌&&◌, ◌||◌, not}
pub use mathlib.Core.Option.{Option, none, some}
pub use mathlib.Core.List.{List, [], ◌∷◌, ◌++◌, map}
pub use native.Mathlib.Omega.{arith}
