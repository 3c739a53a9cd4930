-- ===== src/Earn/Campaign/Bonus.antt =====
-- What a campaign pays: its budget and the cap of each customer
-- (`handle_earn_points_campaign` of programs/vesta-core/src/instructions/earn_points.rs).
use vesta_core.Base.{
  ℕ, ◌+◌, ◌-◌, ◌≤◌, ◌<◌, ◌≡◌, ◌⊎◌, Bool, ℤ, arith, Result, ok, require, >>=-ok, u64_max, ◌==◌,
}
use vesta_core.Vesta.Error.{VestaError, merchant_mismatch, mint_mismatch}
use vesta_core.Vesta.Merchant.{Merchant}
use vesta_core.Vesta.Customer.{CustomerProfile}
use vesta_core.Vesta.Campaign.{Campaign, CampaignProgress}
use vesta_core.Earn.{Accrual, MintTo, accrue, current_day, init_profile_identity, earn_guards}
use vesta_core.Earn.Campaign.{
  EarnPointsCampaign, CampaignEarned, preview_total_bps, check_eligible, is_fresh_progress,
  start_progress, count_visit, gross_bonus, clamp_bonus, completes, book_campaign, book_progress,
  pay_campaign, handle_earn_points_campaign,
}

-- The parts of a payment that succeeded.
pub record Payment (c : Campaign) (started : CampaignProgress) (fresh : Bool) (p : CustomerProfile)
    (m : Merchant) (amount day : ℕ) (r : CampaignEarned) : Type 0 where
  pub preview : ℕ
  pub previewed : preview_total_bps p day ≡ ok preview
  pub gross : ℕ
  pub grossed : gross_bonus c (count_visit c started) m amount preview ≡ ok gross
  pub paid : r.bonus ≡ clamp_bonus c (count_visit c started) gross
  pub accrual : Accrual
  pub accrued : accrue p m amount day (clamp_bonus c (count_visit c started) gross) 0 ≡ ok accrual
  pub minted : r.accrual.minted ≡ accrual.minted
  pub done : r.quest_completed ≡ completes c gross r.bonus
  pub campaign : r.campaign ≡ book_campaign fresh r.bonus c
  pub progress : r.progress ≡ book_progress r.quest_completed r.bonus (count_visit c started)

pub pay_campaign_inv :
    (c : Campaign) (started : CampaignProgress) (fresh : Bool) (p : CustomerProfile) (m : Merchant)
    (amount day : ℕ) (mint : ℕ → Result VestaError (Unit {0})) {r : CampaignEarned}
    → pay_campaign mint c started fresh p m amount day ≡ ok r
    → Payment c started fresh p m amount day r
unfolding pay_campaign
pay_campaign_inv c started fresh p m amount day mint {r} h =
    let (v, e, h1) = >>=-ok (preview_total_bps p day) _ h in
    let (gross, e', h2) = >>=-ok (gross_bonus c (count_visit c started) m amount v) _ h1 in
    let (a, e'', h2') =
      >>=-ok (accrue p m amount day (clamp_bonus c (count_visit c started) gross) 0) _ h2 in
    let (_, _, h3) = >>=-ok (mint a.minted) _ h2' in
    record {
      preview = v;
      previewed = e;
      gross = gross;
      grossed = e';
      paid = ground arith;
      accrual = a;
      accrued = e'';
      minted = ground arith;
      done = ground arith;
      campaign = ground arith;
      progress = ground arith;
    }

-- A successful call of the handler: its first steps, and the payment.
pub record Call (a : EarnPointsCampaign) (now : ℤ) (amount visit_day : ℕ) (r : CampaignEarned)
    : Type 0 where
  pub day : ℕ
  pub dated : current_day now visit_day ≡ ok day
  pub profile : CustomerProfile
  pub merchant : Merchant
  pub stamped :
      init_profile_identity a.customer_profile a.merchant a.merchant_key a.customer a.profile_bump
      ≡ ok (profile, merchant)
  pub eligible : check_eligible a.campaign profile now day amount ≡ ok tt
  pub payment :
      Payment a.campaign
        (start_progress a.campaign a.campaign_key a.customer a.progress_bump a.campaign_progress)
        (is_fresh_progress a.campaign a.campaign_progress)
        profile
        merchant
        amount
        day
        r

pub handle_inv :
    (mint_to : MintTo) (a : EarnPointsCampaign) (now : ℤ) (amount visit_day : ℕ)
    {r : CampaignEarned}
    → handle_earn_points_campaign mint_to a now amount visit_day ≡ ok r
    → Call a now amount visit_day r
unfolding handle_earn_points_campaign
handle_inv mint_to a now amount visit_day {r} h0 =
    let (_, _, h) = >>=-ok (require (a.merchant.point_mint == a.point_mint) mint_mismatch) _ h0 in
    let (_, _, h1) =
      >>=-ok (require (a.campaign.merchant == a.merchant_key) merchant_mismatch) _ h in
    let (_, _, h2) = >>=-ok (earn_guards a.config a.merchant a.merchant_authority amount) _ h1 in
    let (day, e3, h3) = >>=-ok (current_day now visit_day) _ h2 in
    let (pm, e4, h4) =
      >>=-ok
        (init_profile_identity a.customer_profile a.merchant a.merchant_key a.customer
          a.profile_bump)
        _ h3 in
    let (_, e5, h5) = >>=-ok (check_eligible a.campaign pm.0 now day amount) _ h4 in
    record {
      day = day;
      dated = e3;
      profile = pm.0;
      merchant = pm.1;
      stamped = e4;
      eligible = e5;
      payment = pay_campaign_inv _ _ _ _ _ amount day (mint_to a.point_mint a.customer) h5;
    }

pub clamp_bonus_bounds :
    (c : Campaign) (g : CampaignProgress) (gross : ℕ)
    → (clamp_bonus c g gross ≤ gross)
      × ((c.points_budget ≡ 0) ⊎ (clamp_bonus c g gross ≤ c.points_budget - c.points_spent))
      × ((c.per_customer_cap ≡ 0) ⊎ (clamp_bonus c g gross ≤ c.per_customer_cap - g.bonus_drawn))
unfolding clamp_bonus
clamp_bonus_bounds c g gross = ground arith

pub count_visit_keeps :
    (c : Campaign) (g : CampaignProgress)
    → ((count_visit c g).bonus_drawn ≡ g.bonus_drawn) × ((count_visit c g).completed ≡ g.completed)
unfolding count_visit
count_visit_keeps c g = ground arith

-- The progress that a call continues: the stored one, or a new one.
abbrev pub resumed : EarnPointsCampaign → CampaignProgress
resumed a = start_progress a.campaign a.campaign_key a.customer a.progress_bump a.campaign_progress

-- A campaign with a budget of at most the largest `u64`, of which it has not spent more, never
-- spends more than it: a payment adds exactly its bonus to what is spent, the sum stays within
-- the budget, and the budget is not changed.
pub campaign_budget_kept :
    (mint_to : MintTo) (a : EarnPointsCampaign) (now : ℤ) (amount visit_day : ℕ)
    (r : CampaignEarned)
    → 0 < a.campaign.points_budget
    → a.campaign.points_budget ≤ u64_max
    → a.campaign.points_spent ≤ a.campaign.points_budget
    → handle_earn_points_campaign mint_to a now amount visit_day ≡ ok r
    → (r.campaign.points_spent ≡ a.campaign.points_spent + r.bonus)
      × (r.campaign.points_spent ≤ a.campaign.points_budget)
      × (r.campaign.points_budget ≡ a.campaign.points_budget)
unfolding book_campaign
campaign_budget_kept mint_to a now amount visit_day r pos fits within h =
    let k = (handle_inv mint_to a now amount visit_day h).payment in
    ground (
      arith,
      clamp_bonus_bounds a.campaign (count_visit a.campaign (resumed a)) k.gross,
      k.paid,
      k.campaign,
    )

-- A customer never draws more than the cap for one customer, where the campaign has one, it fits
-- a `u64`, and the progress that the call continues is within it: a payment adds exactly its
-- bonus to what is drawn, and the sum stays within the cap.
pub customer_cap_kept :
    (mint_to : MintTo) (a : EarnPointsCampaign) (now : ℤ) (amount visit_day : ℕ)
    (r : CampaignEarned)
    → 0 < a.campaign.per_customer_cap
    → a.campaign.per_customer_cap ≤ u64_max
    → (resumed a).bonus_drawn ≤ a.campaign.per_customer_cap
    → handle_earn_points_campaign mint_to a now amount visit_day ≡ ok r
    → (r.progress.bonus_drawn ≡ (resumed a).bonus_drawn + r.bonus)
      × (r.progress.bonus_drawn ≤ a.campaign.per_customer_cap)
unfolding book_progress
customer_cap_kept mint_to a now amount visit_day r pos fits within h =
    let k = (handle_inv mint_to a now amount visit_day h).payment in
    ground (
      arith,
      clamp_bonus_bounds a.campaign (count_visit a.campaign (resumed a)) k.gross,
      count_visit_keeps a.campaign (resumed a),
      k.paid,
      k.progress,
    )
