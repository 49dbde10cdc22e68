-- ===== src/Base.antt =====
-- Names and facts that every component shares: the libraries' names passed on, tests on numbers,
-- lists measured by native numbers, masks, 32-bit words and bytes of text.
mod Tests
mod Lists
pub mod Bits
pub mod Masks
pub mod Word
pub mod Bytes
pub mod Number
pub mod Partial
pub use Tests.*
pub use Lists.*
pub use Prim.Native.Nat.{
  ℕ, zero, suc, ◌+◌, ◌-◌, ◌*◌, ◌/◌, ◌%◌, ◌^◌, ◌≤◌, ◌<◌, min, max, bit_and, bit_or,
}
pub use mathlib.Core.Path.{◌≡◌, refl, sym, ap, ◌∙◌}
pub use mathlib.Core.Logic.{◌≢◌, ◌↔◌, ◌⊎◌, inl, inr}
pub use mathlib.Core.Bool.{Bool, true, false, ◌&&◌, ◌||◌, not}
pub use mathlib.Core.Option.{Option, none, some}
pub use mathlib.Core.List.{List, [], ◌∷◌, ◌++◌, append_assoc, map}
pub use native.Mathlib.Omega.{arith}
