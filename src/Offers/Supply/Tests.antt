-- ===== src/Offers/Supply/Tests.antt =====
-- A concrete offer, created and redeemed.
use vesta_core.Base.{◌≡◌, ◌+◌, refl, none, some, [], ◌∷◌, pos, ok, Succeeds}
use vesta_core.Vesta.Merchant.{may_manage, can_operate}
use vesta_core.Vesta.Samples.{protocol, bakery, guest}
use vesta_core.Koinon.Swap.{
  UiAmountToAmount, ui_points_to_raw, format_ui_amount, decimal, from_le_bytes,
}
use vesta_core.Offers.{
  RedeemOffer, segment_gate, manager_only, handle_create_offer, handle_redeem_offer,
}
use vesta_core.Offers.Supply.{created, redeemed, supply_exact}

opened : Succeeds (handle_create_offer protocol bakery 6 20 245 1 1_230 10)
unfolding handle_create_offer manager_only may_manage can_operate
opened = (_, refl)

-- The token program's answer: 1 230 raw points.
abbrev answer : UiAmountToAmount
answer mint text = ok (some (1, 206 ∷ 4 ∷ 0 ∷ 0 ∷ 0 ∷ 0 ∷ 0 ∷ 0 ∷ []))

abbrev order : RedeemOffer
order = record {
  customer = 5;
  merchant_key = 6;
  merchant = bakery;
  offer_key = 80;
  offer = opened.0;
  customer_profile = guest;
  profile_bump = 244;
  receipt_bump = 243;
  point_mint = 21;
  config = protocol;
  merchant_segments = none;
  customer_eligibility = none;
  token_program = 1;
}

sold : Succeeds (handle_redeem_offer answer (λ n. ok tt) order (pos 2_000) 1_300)
unfolding opened handle_redeem_offer segment_gate ui_points_to_raw format_ui_amount decimal
    from_le_bytes
sold = (_, refl)

supply_exact_example :
    (1 + sold.0.offer.supply_remaining ≡ 10) × (sold.0.offer.price_points ≡ 1_230)
supply_exact_example = supply_exact (
    redeemed answer (λ n. ok tt) order (pos 2_000) 1_300 sold.0
      (created protocol bakery 6 20 245 1 opened.1) sold.1)
