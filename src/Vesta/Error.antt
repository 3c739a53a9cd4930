-- ===== src/Vesta/Error.antt =====
-- The error codes of the loyalty program (programs/vesta-core/src/error.rs).
pub data VestaError : Type 0 where
  protocol_paused unauthorized pending_admin_mismatch migration_already_applied : VestaError
  invalid_decay_rate invalid_earn_rate invalid_decimals string_too_long stale_visit_day : VestaError
  earn_cap_exceeded multiplier_overflow campaign_inactive campaign_window_invalid : VestaError
  campaign_not_eligible merchant_paused operators_full operator_not_found : VestaError
  swap_rate_out_of_bounds alliance_paused value_too_large reason_required : VestaError
  clawback_exceeds_balance clawback_cap_exceeded merchant_not_empty offer_inactive : VestaError
  offer_sold_out slippage_exceeded mint_mismatch merchant_mismatch treasury_mismatch : VestaError
  alliance_mismatch member_inactive already_in_alliance swap_budget_exceeded invalid_swap_rate :
      VestaError
  guard_not_initialized guard_already_finalized threshold_not_reached already_granted : VestaError
  invalid_amount overflow conversion_failed issuance_frozen invalid_issue_status : VestaError
  merchant_trust_missing aegis_program_mismatch invalid_grace invalid_reserve_params : VestaError
  reserve_coverage_breach reserve_mint_mismatch daily_issuance_cap_exceeded too_many_segments :
      VestaError
  invalid_segment offer_segment_gated : VestaError
