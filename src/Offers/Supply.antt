-- ===== src/Offers/Supply.antt =====
-- Redemptions of an offer (programs/vesta-core/src/instructions/offers.rs): what one does to the accounts,
-- and how many there can be.
mod Tests
use vesta_core.Base.{
  ℕ, ◌∙◌, suc, ◌+◌, ◌-◌, ◌≤◌, ◌<◌, ◌≡◌, ◌≢◌, ◌⊎◌, inl, inr, refl, sym, Bool, true, false, not,
  Option, none, some, List, [], ◌∷◌, ℤ, leb, ltb, ◌==◌, arith, if◌then◌else◌, length,
  saturating_sub, Result, ok, err, constraint, panic, ◌>>=◌, ◌>>◌, require, ok_or, >>=-ok, ok-inj,
  require_inv, Bool-cases, expect,
}
use vesta_core.Vesta.Constants.{Pubkey, default_key}
use vesta_core.Vesta.Error.{
  VestaError, mint_mismatch, merchant_mismatch, protocol_paused, merchant_paused, offer_inactive,
  offer_sold_out, slippage_exceeded, overflow,
}
use vesta_core.Vesta.Merchant.{Config, Merchant}
use vesta_core.Vesta.Customer.{
  CustomerProfile, MerchantSegments, CustomerEligibility, is_fresh, bit_is_set, satisfies,
}
use vesta_core.Vesta.Catalog.{Offer, Receipt}
use vesta_core.Koinon.Swap.{UiAmountToAmount, ui_points_to_raw}
use vesta_core.Offers.{
  RedeemOffer, Redeemed, passes, segment_gate, handle_redeem_offer, handle_set_offer_segment,
  handle_create_offer, manager_only,
}

-- A redemption that goes through.
pub record IsRedeemed (call : UiAmountToAmount) (a : RedeemOffer) (now : ℤ) (max_raw : ℕ)
    (r : Redeemed) : Type 0 where
  pub gated : segment_gate a.offer a.merchant_segments a.customer_eligibility now ≡ ok tt
  pub live : a.offer.active ≡ true
  pub taken : r.offer.supply_remaining + 1 ≡ a.offer.supply_remaining
  pub priced :
      ui_points_to_raw call a.token_program a.point_mint a.offer.price_points ≡ ok r.raw_burned
  pub within : r.raw_burned ≤ max_raw
  pub indexed : r.receipt_index ≡ a.customer_profile.lifetime_redemptions
  pub counted : r.profile.lifetime_redemptions ≡ a.customer_profile.lifetime_redemptions + 1
  pub kept :
      (r.offer.price_points ≡ a.offer.price_points)
      × (r.offer.required_segment ≡ a.offer.required_segment)

redeem_inv :
    (call : UiAmountToAmount) (burn : ℕ → Result VestaError (Unit {0})) (a : RedeemOffer) (now : ℤ)
    (max_raw : ℕ) {r : Redeemed}
    → handle_redeem_offer call burn a now max_raw ≡ ok r
    → IsRedeemed call a now max_raw r
unfolding handle_redeem_offer
redeem_inv call burn a now max_raw h = ground arith

created_supply :
    (config : Config) (m : Merchant) (merchant_key signer : Pubkey) (bump id price supply : ℕ)
    {o : Offer}
    → handle_create_offer config m merchant_key signer bump id price supply ≡ ok o
    → (o.supply_remaining ≡ supply) × (o.price_points ≡ price)
unfolding handle_create_offer manager_only
created_supply config m merchant_key signer bump id price supply h = ground arith

gated_supply :
    (m : Merchant) (merchant_key signer : Pubkey) (o : Offer) (segment : ℕ) {o' : Offer}
    → handle_set_offer_segment m merchant_key signer o segment ≡ ok o'
    → (o'.supply_remaining ≡ o.supply_remaining) × (o'.price_points ≡ o.price_points)
unfolding handle_set_offer_segment manager_only
gated_supply m merchant_key signer o segment h = ground arith

-- An offer, as it was created with a price and a supply, after a number of redemptions.
pub data Sold (price supply : ℕ) : Offer → ℕ → Type 0 where
  created :
      (config : Config) (m : Merchant) (merchant_key signer : Pubkey) (bump id : ℕ) {o : Offer}
      → handle_create_offer config m merchant_key signer bump id price supply ≡ ok o
      → Sold price supply o 0
  gated :
      (m : Merchant) (merchant_key signer : Pubkey) (segment : ℕ) {o o' : Offer} {k : ℕ}
      → Sold price supply o k
      → handle_set_offer_segment m merchant_key signer o segment ≡ ok o'
      → Sold price supply o' k
  redeemed :
      (call : UiAmountToAmount) (burn : ℕ → Result VestaError (Unit {0})) (a : RedeemOffer)
      (now : ℤ) (max_raw : ℕ) (r : Redeemed) {k : ℕ}
      → Sold price supply a.offer k
      → handle_redeem_offer call burn a now max_raw ≡ ok r
      → Sold price supply r.offer (suc k)

-- Every redemption of an offer, by any customers and with the offer's segment changed in between, takes
-- one from the supply that it was created with, and none changes the price: the redemptions and what
-- remains make up that supply.
pub supply_exact :
    {price supply : ℕ} {o : Offer} {k : ℕ}
    → Sold price supply o k
    → (k + o.supply_remaining ≡ supply) × (o.price_points ≡ price)
supply_exact (created config m merchant_key signer bump id h) =
    let (n, p) = created_supply config m merchant_key signer bump id _ _ h in (omega (arith, n), p)
supply_exact (gated m merchant_key signer segment {o} s h) =
    let (n, p) = supply_exact s in
    let (n', p') = gated_supply m merchant_key signer o segment h in (omega (arith, n, n'), p' ∙ p)
supply_exact (redeemed call burn a now max_raw r s h) =
    let (n, p) = supply_exact s in
    let i = redeem_inv call burn a now max_raw h in (omega (arith, n, i.taken), i.kept.0 ∙ p)
