-- ===== src/Koinon.antt =====
-- Koinon alliances (programs/vesta-core/src/instructions/koinon.rs): the alliance, its handover,
-- its limits and its members. The child Swap is the swap of points between two members.
pub mod Swap
pub mod Handover
mod Tests
use vesta_core.Base.{
  ℕ, ◌+◌, Bool, true, false, not, ◌||◌, Option, none, some, List, [], ℤ, pos, leb, ltb, ◌==◌,
  if◌then◌else◌, length, Result, ok, err, ◌>>=◌, ◌>>◌, require, ok_or, checked_add, saturating_sub,
  u16_max,
}
use vesta_core.Vesta.Constants.{
  Pubkey, Text, max_name_len, max_metadata_uri_len, max_alliance_fee_bps,
}
use vesta_core.Vesta.Error.{
  VestaError, protocol_paused, string_too_long, unauthorized, pending_admin_mismatch,
  value_too_large, invalid_swap_rate, swap_rate_out_of_bounds, already_in_alliance, overflow,
}
use vesta_core.Vesta.Merchant.{Config, Merchant}
use vesta_core.Vesta.Alliance.{Alliance, AllianceMember}

pub handle_create_alliance : Config → Pubkey → ℕ → ℕ → Text → Result VestaError Alliance
handle_create_alliance config creator bump id name = do
  require (not config.paused) protocol_paused
  require (leb (length name) max_name_len) string_too_long
  ok (record {
    id = id;
    authority = creator;
    pending_authority = none;
    name = name;
    member_count = 0;
    paused = false;
    fee_bps = 0;
    min_rate_bps = 0;
    max_rate_bps = 0;
    category = 0;
    metadata_uri = [];
    total_swaps = 0;
    total_ui_volume = 0;
    bump = bump;
  })

-- `has_one = authority`
pub authority_only : Alliance → Pubkey → Result VestaError (Unit {0})
authority_only a signer = require (a.authority == signer) unauthorized

pub handle_transfer_alliance_authority : Alliance → Pubkey → Pubkey → Result VestaError Alliance
unfolding authority_only
handle_transfer_alliance_authority a signer new_authority = do
  authority_only a signer
  ok (record a { pending_authority = some new_authority })

abbrev is_pending : Option Pubkey → Pubkey → Bool
is_pending none key = false
is_pending (some pending) key = pending == key

pub handle_accept_alliance_authority : Alliance → Pubkey → Result VestaError Alliance
handle_accept_alliance_authority a signer = do
  require (is_pending a.pending_authority signer) pending_admin_mismatch
  ok (record a { authority = signer; pending_authority = none })

-- A bound of 0 is no bound.
pub check_rate_bounds : Alliance → ℕ → Result VestaError (Unit {0})
check_rate_bounds a rate = do
  require (if ltb 0 a.min_rate_bps then leb a.min_rate_bps rate else true) swap_rate_out_of_bounds
  require (if ltb 0 a.max_rate_bps then leb rate a.max_rate_bps else true) swap_rate_out_of_bounds

pub handle_set_alliance_paused : Alliance → Pubkey → Bool → Result VestaError Alliance
unfolding authority_only
handle_set_alliance_paused a signer paused = do
  authority_only a signer
  ok (record a { paused = paused })

pub handle_set_alliance_params : Alliance → Pubkey → ℕ → ℕ → ℕ → Result VestaError Alliance
unfolding authority_only
handle_set_alliance_params a signer fee_bps min_rate_bps max_rate_bps = do
  authority_only a signer
  require (leb fee_bps max_alliance_fee_bps) value_too_large
  require (max_rate_bps == 0 || leb min_rate_bps max_rate_bps) invalid_swap_rate
  ok (record a { fee_bps = fee_bps; min_rate_bps = min_rate_bps; max_rate_bps = max_rate_bps })

pub handle_update_alliance_profile : Alliance → Pubkey → ℕ → Text → Result VestaError Alliance
unfolding authority_only
handle_update_alliance_profile a signer category metadata_uri = do
  authority_only a signer
  require (leb (length metadata_uri) max_metadata_uri_len) string_too_long
  ok (record a { category = category; metadata_uri = metadata_uri })

pub handle_set_member_active :
    Alliance → AllianceMember → Pubkey → Bool → Result VestaError AllianceMember
unfolding authority_only
handle_set_member_active a member signer active = do
  authority_only a signer
  ok (record member { active = active })

-- The accounts of a join, and those of a change of a member's rate or budget. The merchant's own
-- authority signs: the seeds of the merchant's address hold it.
pub record JoinAlliance : Type 0 where
  pub alliance_authority : Pubkey
  pub merchant : Merchant
  pub merchant_key : Pubkey
  pub alliance : Alliance
  pub alliance_key : Pubkey
  pub config : Config
  pub member_bump : ℕ

pub record Joined : Type 0 where
  pub alliance : Alliance
  pub merchant : Merchant
  pub member : AllianceMember

abbrev is_none : Option Pubkey → Bool
is_none none = true
is_none (some key) = false

pub handle_join_alliance : JoinAlliance → ℤ → ℕ → ℕ → Result VestaError Joined
unfolding authority_only check_rate_bounds
handle_join_alliance j now rate swap_in_budget_raw = do
  authority_only j.alliance j.alliance_authority
  require (not j.config.paused) protocol_paused
  require (ltb 0 rate) invalid_swap_rate
  check_rate_bounds j.alliance rate
  require (is_none j.merchant.joined_alliance) already_in_alliance
  member_count ← ok_or (checked_add u16_max j.alliance.member_count 1) overflow
  ok (record {
    alliance = record j.alliance { member_count = member_count };
    merchant = record j.merchant { joined_alliance = some j.alliance_key };
    member = record {
      alliance = j.alliance_key;
      merchant = j.merchant_key;
      rate_bps_to_alliance = rate;
      swap_in_budget_raw = swap_in_budget_raw;
      swapped_in_today = 0;
      budget_day = 0;
      active = true;
      joined_at = now;
      total_swapped_in = 0;
      total_swapped_out = 0;
      bump = j.member_bump;
    };
  })

-- The member's account is closed.
pub handle_leave_alliance : Alliance → Merchant → Alliance × Merchant
handle_leave_alliance a m = (
  record a { member_count = saturating_sub a.member_count 1 },
  record m { joined_alliance = none },
)

pub handle_set_swap_rate : Alliance → AllianceMember → Pubkey → ℕ → Result VestaError AllianceMember
unfolding authority_only check_rate_bounds
handle_set_swap_rate a member alliance_authority new_rate = do
  authority_only a alliance_authority
  require (ltb 0 new_rate) invalid_swap_rate
  check_rate_bounds a new_rate
  ok (record member { rate_bps_to_alliance = new_rate })

pub handle_set_swap_budget :
    Alliance → AllianceMember → Pubkey → ℕ → Result VestaError AllianceMember
unfolding authority_only
handle_set_swap_budget a member alliance_authority new_budget = do
  authority_only a alliance_authority
  ok (record member { swap_in_budget_raw = new_budget })
