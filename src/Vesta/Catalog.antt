-- ===== src/Vesta/Catalog.antt =====
-- A merchant's offers and badges, and the receipts of both (programs/vesta-core/src/state.rs).
use vesta_core.Base.{ℕ, Bool, ℤ}
use vesta_core.Vesta.Constants.{Pubkey, Text}

pub record Offer : Type 0 where
  pub merchant : Pubkey
  pub id : ℕ
  pub price_points : ℕ
  pub supply_remaining : ℕ
  pub active : Bool
  pub bump : ℕ
  pub required_segment : ℕ

pub record Receipt : Type 0 where
  pub offer : Pubkey
  pub customer : Pubkey
  pub redeemed_at : ℤ
  pub bump : ℕ

pub record Achievement : Type 0 where
  pub merchant : Pubkey
  pub id : ℕ
  pub name : Text
  pub uri : Text
  pub threshold_lifetime : ℕ
  pub badge_count : ℕ
  pub bump : ℕ

pub record KleosReceipt : Type 0 where
  pub granted_at : ℤ
  pub bump : ℕ
