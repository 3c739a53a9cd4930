-- ===== src/Vesta/Merchant.antt =====
-- The protocol's configuration and a merchant's account with its roles
-- (programs/vesta-core/src/state.rs).
use vesta_core.Base.{
  ℕ, Bool, true, Option, List, ℤ, Result, ok, panic, leb, ◌==◌, if◌then◌else◌, take, contains,
}
use vesta_core.Vesta.Constants.{Pubkey, Text, max_operators}

pub record Config : Type 0 where
  pub admin : Pubkey
  pub pending_admin : Option Pubkey
  pub paused : Bool
  pub bump : ℕ

pub record Merchant : Type 0 where
  pub id : ℕ
  pub authority : Pubkey
  pub point_mint : Pubkey
  pub treasury : Pubkey
  pub name : Text
  pub decay_rate_bps : ℤ
  pub base_earn_rate : ℕ
  pub lifetime_points_issued : ℕ
  pub customer_count : ℕ
  pub joined_alliance : Option Pubkey
  pub operators : List Pubkey
  pub operator_count : ℕ
  pub paused : Bool
  pub verified : Bool
  pub category : ℕ
  pub metadata_uri : Text
  pub lifetime_redemptions : ℕ
  pub badges_issued : ℕ
  pub lifetime_clawed_back : ℕ
  pub clawback_count : ℕ
  pub clawback_daily_cap_raw : ℕ
  pub clawed_today : ℕ
  pub clawback_day : ℕ
  pub bump : ℕ
  pub mint_bump : ℕ
  pub issue_status : ℕ
  pub daily_issue_cap_raw : ℕ
  pub issued_today : ℕ
  pub issue_day : ℕ
  pub governance_enabled : Bool
  pub cashier : Pubkey
  pub campaign_manager : Pubkey

-- A count past the array's end makes the slice panic.
unfoldable pub can_operate : {E : Type 0} → Merchant → Pubkey → Result E Bool
can_operate m signer =
    if signer == m.authority
    then ok true
    else if leb m.operator_count max_operators
    then ok (contains (take m.operator_count m.operators) signer)
    else panic

unfoldable pub may_earn : {E : Type 0} → Merchant → Pubkey → Result E Bool
unfolding can_operate
may_earn m signer = if m.governance_enabled then ok (signer == m.cashier) else can_operate m signer

unfoldable pub may_manage : {E : Type 0} → Merchant → Pubkey → Result E Bool
unfolding can_operate
may_manage m signer =
    if m.governance_enabled then ok (signer == m.campaign_manager) else can_operate m signer
