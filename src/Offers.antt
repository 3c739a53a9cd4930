-- ===== src/Offers.antt =====
-- The redemption catalogue (programs/vesta-core/src/instructions/offers.rs). The token program's burn is
-- a parameter, as its conversion of a UI amount is.
pub mod Supply
use vesta_core.Base.{
  ℕ, Bool, true, false, not, Option, none, some, ℤ, leb, ltb, ◌==◌, if◌then◌else◌, checked_add,
  checked_sub, saturating_add, saturating_sub, u32_max, u64_max, Result, ok, ◌>>=◌, ◌>>◌, require,
  ok_or,
}
use vesta_core.Vesta.Constants.{Pubkey, default_key, max_segments}
use vesta_core.Vesta.Error.{
  VestaError, protocol_paused, merchant_paused, unauthorized, invalid_amount, invalid_segment,
  mint_mismatch, merchant_mismatch, offer_segment_gated, offer_inactive, offer_sold_out,
  slippage_exceeded, overflow,
}
use vesta_core.Vesta.Merchant.{Config, Merchant, may_manage}
use vesta_core.Vesta.Customer.{CustomerProfile, MerchantSegments, CustomerEligibility, satisfies}
use vesta_core.Vesta.Catalog.{Offer, Receipt}
use vesta_core.Koinon.Swap.{UiAmountToAmount, ui_points_to_raw}
use vesta_core.Merchants.{owner_only}

-- `may_manage` and the refusal of everybody else
unfoldable pub manager_only : Merchant → Pubkey → Result VestaError (Unit {0})
unfolding may_manage
manager_only m signer = do allowed ← may_manage m signer; require allowed unauthorized

pub handle_create_offer :
    Config → Merchant → Pubkey → Pubkey → ℕ → ℕ → ℕ → ℕ → Result VestaError Offer
handle_create_offer config m merchant_key signer bump id price_points supply = do
  require (not config.paused) protocol_paused
  require (not m.paused) merchant_paused
  manager_only m signer
  require (ltb 0 price_points) invalid_amount
  require (ltb 0 supply) invalid_amount
  ok (record {
    merchant = merchant_key;
    id = id;
    price_points = price_points;
    supply_remaining = supply;
    active = true;
    bump = bump;
    required_segment = 0;
  })

-- The offer's account is gone after.
pub handle_close_offer : Merchant → Pubkey → Pubkey → Offer → Result VestaError (Unit {0})
handle_close_offer m merchant_key signer offer = do
  owner_only m signer
  require (offer.merchant == merchant_key) merchant_mismatch

pub handle_set_offer_segment : Merchant → Pubkey → Pubkey → Offer → ℕ → Result VestaError Offer
handle_set_offer_segment m merchant_key signer offer required_segment = do
  require (offer.merchant == merchant_key) merchant_mismatch
  manager_only m signer
  require (leb required_segment max_segments) invalid_segment
  ok (record offer { required_segment = required_segment })

-- The gate is passed with both accounts present and the segment's bit set in a fresh cache.
unfoldable pub passes :
    Option MerchantSegments → Option CustomerEligibility → ℕ → ℤ → Result VestaError Bool
unfolding satisfies
passes none cel required now = ok false
passes (some segs) none required now = ok false
passes (some segs) (some cel) required now =
    satisfies cel (saturating_sub required 1) segs.policy_epoch now

unfoldable pub segment_gate :
    Offer → Option MerchantSegments → Option CustomerEligibility → ℤ → Result VestaError (Unit {0})
unfolding passes
segment_gate offer segs cel now = if offer.required_segment == 0 then ok tt else (do
  passed ← passes segs cel offer.required_segment now
  require passed offer_segment_gated)

-- The accounts of a redemption; a new profile is zero.
pub record RedeemOffer : Type 0 where
  pub customer : Pubkey
  pub merchant_key : Pubkey
  pub merchant : Merchant
  pub offer_key : Pubkey
  pub offer : Offer
  pub customer_profile : CustomerProfile
  pub profile_bump : ℕ
  pub receipt_bump : ℕ
  pub point_mint : Pubkey
  pub config : Config
  pub merchant_segments : Option MerchantSegments
  pub customer_eligibility : Option CustomerEligibility
  pub token_program : Pubkey

-- What a redemption leaves, and the amount burned. The receipt's address holds the profile's count of
-- redemptions before this one.
pub record Redeemed : Type 0 where
  pub offer : Offer
  pub profile : CustomerProfile
  pub merchant : Merchant
  pub receipt : Receipt
  pub receipt_index : ℕ
  pub raw_burned : ℕ

pub handle_redeem_offer :
    UiAmountToAmount
    → (ℕ → Result VestaError (Unit {0}))
    → RedeemOffer
    → ℤ
    → ℕ
    → Result VestaError Redeemed
unfolding segment_gate
handle_redeem_offer call burn a now max_raw_amount = do
  require (a.merchant.point_mint == a.point_mint) mint_mismatch
  require (a.offer.merchant == a.merchant_key) merchant_mismatch
  require (not a.config.paused) protocol_paused
  require (not a.merchant.paused) merchant_paused
  segment_gate a.offer a.merchant_segments a.customer_eligibility now
  require a.offer.active offer_inactive
  require (ltb 0 a.offer.supply_remaining) offer_sold_out
  raw_needed ← ui_points_to_raw call a.token_program a.point_mint a.offer.price_points
  require (leb raw_needed max_raw_amount) slippage_exceeded
  burn raw_needed
  remaining ← ok_or (checked_sub a.offer.supply_remaining 1) offer_sold_out
  let first_touch = a.customer_profile.wallet == default_key
  let p =
      if first_touch
      then record a.customer_profile {
        wallet = a.customer;
        merchant = a.merchant_key;
        bump = a.profile_bump;
      }
      else a.customer_profile
  redemptions ← ok_or (checked_add u32_max p.lifetime_redemptions 1) overflow
  let m = record a.merchant {
    lifetime_redemptions = saturating_add u64_max a.merchant.lifetime_redemptions 1;
  }
  ok (record {
    offer = record a.offer { supply_remaining = remaining };
    profile = record p { lifetime_redemptions = redemptions };
    merchant =
        (if first_touch
          then record m { customer_count = saturating_add u64_max m.customer_count 1 }
          else m);
    receipt = record {
      offer = a.offer_key;
      customer = a.customer;
      redeemed_at = now;
      bump = a.receipt_bump;
    };
    receipt_index = a.customer_profile.lifetime_redemptions;
    raw_burned = raw_needed;
  })

-- The receipt's account is gone after.
pub handle_close_receipt : Receipt → Pubkey → Result VestaError (Unit {0})
handle_close_receipt receipt customer = require (receipt.customer == customer) unauthorized
