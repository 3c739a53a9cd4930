-- ===== src/Vesta/Alliance.antt =====
-- An alliance of merchants and a membership in it (programs/vesta-core/src/state.rs).
use vesta_core.Base.{ℕ, Bool, Option, ℤ}
use vesta_core.Vesta.Constants.{Pubkey, Text}

pub record Alliance : Type 0 where
  pub id : ℕ
  pub authority : Pubkey
  pub pending_authority : Option Pubkey
  pub name : Text
  pub member_count : ℕ
  pub paused : Bool
  pub fee_bps : ℕ
  pub min_rate_bps : ℕ
  pub max_rate_bps : ℕ
  pub category : ℕ
  pub metadata_uri : Text
  pub total_swaps : ℕ
  pub total_ui_volume : ℕ
  pub bump : ℕ

pub record AllianceMember : Type 0 where
  pub alliance : Pubkey
  pub merchant : Pubkey
  pub rate_bps_to_alliance : ℕ
  pub swap_in_budget_raw : ℕ
  pub swapped_in_today : ℕ
  pub budget_day : ℕ
  pub active : Bool
  pub joined_at : ℤ
  pub total_swapped_in : ℕ
  pub total_swapped_out : ℕ
  pub bump : ℕ
