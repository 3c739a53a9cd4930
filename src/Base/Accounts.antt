-- ===== src/Base/Accounts.antt =====
-- An account that a handler takes unchecked (`UncheckedAccount`), with what the program's
-- deserializer makes of its data.
use mathlib.Core.Bool.{Bool}
use mathlib.Core.Option.{Option}
use Prim.Native.Nat.{ℕ}

-- `content` is `none` if the data does not deserialize.
pub record Slot {ℓ} (A : Type ℓ) : Type ℓ where
  pub key : ℕ
  pub owner : ℕ
  pub is_empty : Bool
  pub content : Option A
