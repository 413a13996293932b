-- ===== src/Base.antt =====
-- The names that the other modules share: the libraries', passed on, and those of the children:
-- Boolean tests, lists with native indices, the copies of `memcpy`, and 64-bit words.
mod Tests
mod Lists
mod Bytes
mod Word
mod Arith
mod Texts
mod Bits
mod Fields
mod Int
mod Float
pub use Tests.*
pub use Lists.*
unfoldable pub use Bytes.*
pub use Bits.*
pub use Fields.*
unfoldable pub use Texts.*
pub use Arith.*
pub use Word.*
unfoldable pub use Int.*
pub use Float.*
pub use Prim.Native.Nat.{ℕ, zero, suc, ◌+◌, ◌-◌, ◌*◌, ◌/◌, ◌%◌, ◌^◌, ◌≤◌, ◌<◌, min, max}
pub use mathlib.Core.Path.{◌≡◌, refl, sym, ap, subst, ◌∙◌}
pub use mathlib.Core.Logic.{◌≢◌, ◌↔◌, ◌⊎◌, inl, inr}
pub use mathlib.Core.Bool.{Bool, true, false, not, ◌&&◌, ◌||◌}
pub use mathlib.Core.Option.{Option, none, some}
pub use mathlib.Core.List.{List, [], ◌∷◌, ◌++◌, map}
pub use native.Mathlib.Omega.{arith}
unfoldable pub use native.Mathlib.Decide.{dec_lt, dec_le, ℕ_discrete}
