-- ===== src/Earn/Campaign/Joint.antt =====
-- The joint limit of the streak and a campaign on what is minted.
use vesta_core.Base.{ℕ, ◌+◌, ◌-◌, ◌*◌, ◌/◌, ◌≤◌, ◌≡◌, sym, ◌∙◌, min, ℤ, arith, ok}
use vesta_core.Vesta.Constants.{Pubkey, max_total_multiplier_bps, max_earn_per_tx}
use vesta_core.Vesta.Merchant.{Merchant}
use vesta_core.Vesta.Customer.{CustomerProfile}
use vesta_core.Vesta.Campaign.{Campaign, CampaignProgress, kind_multiplier}
use vesta_core.Earn.{MintTo, next_streak, init_profile_identity, scaled}
use vesta_core.Earn.Mint.{multiplier_of, accrue_inv}
use vesta_core.Earn.Campaign.{
  EarnPointsCampaign, CampaignEarned, preview_total_bps, count_visit, gross_bonus, clamp_bonus,
  handle_earn_points_campaign,
}
use vesta_core.Earn.Campaign.Bonus.{handle_inv, clamp_bonus_bounds, resumed}

preview_total_bps_inv :
    (p : CustomerProfile) (day : ℕ) {v : ℕ}
    → preview_total_bps p day ≡ ok v
    → v ≡ multiplier_of (next_streak p day) 0
unfolding preview_total_bps
preview_total_bps_inv p day h = ground arith

gross_multiplier :
    (c : Campaign) (g : CampaignProgress) (m : Merchant) (amount preview gross : ℕ)
    → c.kind ≡ kind_multiplier
    → gross_bonus c g m amount preview ≡ ok gross
    → gross
      ≡ amount
        * m.base_earn_rate
        * min c.multiplier_bps (max_total_multiplier_bps - preview)
        / 10_000
unfolding gross_bonus scaled
gross_multiplier c g m amount preview gross k h = ground arith

mul_mono : (x s t : ℕ) → s ≤ t → x * s ≤ x * t
mul_mono x s t h = grind arith

-- Two rounded shares of `x` whose weights sum to at most `top` are at most the share of weight `top`.
shares_le : (x a b top : ℕ) → a + b ≤ top → x * a / 10_000 + x * b / 10_000 ≤ x * top / 10_000
shares_le x a b top h = omega (arith, mul_mono x (a + b) top h)

joint_shares :
    (x v boost : ℕ)
    → v ≤ max_total_multiplier_bps
    → x * v / 10_000 + x * min boost (max_total_multiplier_bps - v) / 10_000
      ≤ x * max_total_multiplier_bps / 10_000
joint_shares x v boost h =
    shares_le x v (min boost (max_total_multiplier_bps - v)) max_total_multiplier_bps (omega arith)

joint_mint :
    (x bps v boost gross bonus minted : ℕ)
    → bps ≡ v
    → v ≤ max_total_multiplier_bps
    → gross ≡ x * min boost (max_total_multiplier_bps - v) / 10_000
    → bonus ≤ gross
    → minted ≡ x * bps / 10_000 + bonus
    → minted ≤ x * max_total_multiplier_bps / 10_000
joint_mint x bps v boost gross bonus minted same low shared clamped exact =
    let exact' : minted ≡ x * v / 10_000 + bonus = rw same at exact in
    omega (arith, joint_shares x v boost low)

init_keeps_rate :
    (p : CustomerProfile) (m : Merchant) (merchant_key customer : Pubkey) (bump : ℕ)
    {pm : CustomerProfile × Merchant}
    → init_profile_identity p m merchant_key customer bump ≡ ok pm
    → pm.1.base_earn_rate ≡ m.base_earn_rate
unfolding init_profile_identity
init_keeps_rate p m merchant_key customer bump h = ground arith

-- An earn under a MULTIPLIER campaign never mints more than 2.4 times the base amount for the streak
-- and the campaign together, whatever the campaign's boost, nor more than the limit of one transaction.
pub multiplier_joint_cap :
    (mint_to : MintTo) (a : EarnPointsCampaign) (now : ℤ) (amount visit_day : ℕ)
    (r : CampaignEarned)
    → a.campaign.kind ≡ kind_multiplier
    → handle_earn_points_campaign mint_to a now amount visit_day ≡ ok r
    → (r.accrual.minted ≤ amount * a.merchant.base_earn_rate * max_total_multiplier_bps / 10_000)
      × (r.accrual.minted ≤ max_earn_per_tx)
multiplier_joint_cap mint_to a now amount visit_day r q h =
    let call = handle_inv mint_to a now amount visit_day h in
    let k = call.payment in
    let g = count_visit a.campaign (resumed a) in
    let x = amount * call.merchant.base_earn_rate in
    let facts =
      accrue_inv call.profile call.merchant amount call.day (clamp_bonus a.campaign g k.gross) 0
        k.accrued in
    let rate =
      init_keeps_rate a.customer_profile a.merchant a.merchant_key a.customer a.profile_bump
        call.stamped in
    let preview = preview_total_bps_inv call.profile call.day k.previewed in
    (
      rw (← rate) (
          joint_mint x k.accrual.total_bps k.preview a.campaign.multiplier_bps k.gross
            (clamp_bonus a.campaign g k.gross) r.accrual.minted (facts.bps_exact ∙ sym preview)
            (omega (arith, preview))
            (gross_multiplier a.campaign g call.merchant amount k.preview k.gross q k.grossed)
            (clamp_bonus_bounds a.campaign g k.gross).0 (k.minted ∙ facts.mint_exact)),
      omega (arith, k.minted, facts.mint_capped),
    )
