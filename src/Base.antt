-- ===== src/Base.antt =====
-- The names that every other module shares: the libraries', passed on, and those of the children,
-- which hold the Boolean tests, the signed integers, the checked and saturating arithmetic of Rust
-- integers, and the `Result` of a Solana instruction.
mod Tests
mod Int
mod Outcome
mod Machine
mod Lists
mod Accounts
pub mod Daily
pub use Tests.*
unfoldable pub use Int.*
pub use Outcome.*
unfoldable pub use Machine.*
pub use Lists.*
pub use Accounts.{Slot}
pub use Prim.Native.Nat.{
  ℕ, zero, suc, ◌+◌, ◌-◌, ◌*◌, ◌/◌, ◌%◌, ◌^◌, ◌≤◌, ◌<◌, min, max, bit_and, bit_or,
}
pub use mathlib.Core.Path.{◌≡◌, refl, sym, ap, ◌∙◌}
pub use mathlib.Core.Logic.{◌≢◌, ◌↔◌, ◌⊎◌, inl, inr}
pub use mathlib.Core.Bool.{Bool, true, false, ◌&&◌, ◌||◌, not}
pub use mathlib.Core.Option.{Option, none, some}
pub use mathlib.Core.List.{List, [], ◌∷◌, ◌++◌}
pub use native.Mathlib.Omega.{arith}
