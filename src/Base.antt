-- ===== src/Base.antt =====
-- Names and lemmas shared by all modules: the libraries' names passed on, Boolean tests, lists over
-- the native numbers, results, integers, bits and bytes.
mod Tests
mod Lists
mod Outcome
pub mod Int
pub mod Bits
pub mod Bytes
pub mod Order
pub mod Text
pub mod Utf8
pub use Tests.*
pub use Lists.*
unfoldable pub use Lists.{overwrite}
pub use Outcome.*
pub use Prim.Native.Nat.{
  ℕ, zero, suc, ◌+◌, ◌-◌, ◌*◌, ◌/◌, ◌%◌, ◌^◌, ◌≤◌, ◌<◌, min, max, bit_and, bit_or, bit_xor,
}
pub use Prim.Native.String.{String}
pub use mathlib.Core.Path.{◌≡◌, refl, sym, ap, ap₂, ◌∙◌}
pub use mathlib.Core.Logic.{◌≢◌, ◌↔◌, ◌⊎◌, inl, inr}
pub use mathlib.Core.Bool.{Bool, true, false, not, ◌&&◌, ◌||◌}
pub use mathlib.Core.Option.{Option, none, some}
pub use mathlib.Core.List.{List, [], ◌∷◌, ◌++◌, map}
pub use native.Mathlib.Omega.{arith}
