-- ===== src/Base.antt =====
-- The names that the other modules share: those of the libraries, passed on, and those of the
-- children (tests, lists, loops, bytes, bits).
mod Tests
mod Lists
mod Loop
mod Text
pub mod Bits
pub mod Int
pub mod Sort
pub use Tests.*
pub use Lists.*
unfoldable pub use Loop.{while}
unfoldable pub use Text.{bytes_eq, starts_with, occurs, is_digit, is_alpha, is_alnum}
pub use Text.{
  Bytes, codes, bytes_eq_iff, starts_with-append, starts_with_split, occurs-append, occurs_split,
}
pub use Loop.{while_inv, while_keeps, while_round, while_done}
pub use Prim.Native.Nat.{ℕ, zero, suc, ◌+◌, ◌-◌, ◌*◌, ◌/◌, ◌%◌, ◌^◌, ◌≤◌, ◌<◌}
pub use Prim.Native.Nat.{bit_and, bit_or, bit_xor}
pub use mathlib.Core.Path.{◌≡◌, refl, sym, ap, ap₂, ◌∙◌}
pub use mathlib.Core.Logic.{◌≢◌, ◌↔◌, ◌⊎◌, inl, inr}
pub use mathlib.Core.Bool.{Bool, true, false, not, ◌&&◌, ◌||◌}
pub use mathlib.Core.Option.{Option, none, some}
pub use mathlib.Core.List.{List, [], ◌∷◌, ◌++◌, map}
pub use native.Mathlib.Omega.{arith}
