-- ===== src/Earn/Campaign.antt =====
-- Earning under a campaign (`handle_earn_points_campaign` of
-- programs/vesta-core/src/instructions/earn_points.rs): a boost, a flat bonus or a quest.
pub mod Bonus
pub mod Quest
pub mod Joint
mod Tests
use vesta_core.Base.{
  ℕ, ◌+◌, ◌-◌, ◌*◌, ◌≤◌, Bool, true, false, ◌&&◌, ◌||◌, not, Option, none, some, ℤ, min, leb, ltb,
  ◌==◌, if◌then◌else◌, Result, ok, err, ◌>>=◌, ◌>>◌, require, ok_or, and_then, try_from,
  checked_add, checked_mul, saturating_add, saturating_sub, u16_max, u32_max, u64_max,
}
use vesta_core.Vesta.Constants.{
  Pubkey, default_key, max_total_multiplier_bps, streak_bps_per_day, streak_days_cap,
}
use vesta_core.Vesta.Error.{
  VestaError, campaign_inactive, campaign_not_eligible, multiplier_overflow, merchant_mismatch,
  mint_mismatch,
}
use vesta_core.Vesta.Merchant.{Config, Merchant}
use vesta_core.Vesta.Customer.{CustomerProfile}
use vesta_core.Vesta.Campaign.{
  Campaign, CampaignProgress, is_live, kind_multiplier, kind_flat_bonus, kind_quest,
}
use vesta_core.Earn.{
  Accrual, MintTo, next_streak, scaled, accrue, current_day, init_profile_identity, earn_guards,
}

-- The boost that is left under the joint cap.
pub campaign_headroom_bps : ℕ → ℕ
campaign_headroom_bps total_bps = saturating_sub max_total_multiplier_bps total_bps

-- The multiplier that the streak alone will give this earn.
pub preview_total_bps : CustomerProfile → ℕ → Result VestaError ℕ
preview_total_bps p day = do
  streak_bps ←
      ok_or (checked_mul u64_max (min (next_streak p day) streak_days_cap) streak_bps_per_day)
        multiplier_overflow
  total ← ok_or (checked_add u64_max 10_000 streak_bps) multiplier_overflow
  ok (min total max_total_multiplier_bps)

-- A campaign that asks for inactivity pays only after that many days without a visit.
pub inactive_enough : Campaign → CustomerProfile → ℕ → Bool
inactive_enough c p day =
    if ltb 0 c.min_days_inactive
    then leb c.min_days_inactive (saturating_sub day p.last_visit_day)
    else true

pub check_eligible : Campaign → CustomerProfile → ℤ → ℕ → ℕ → Result VestaError (Unit {0})
unfolding is_live inactive_enough
check_eligible c p now day amount_base = do
  require (is_live c now) campaign_inactive
  require (leb c.min_spend_base amount_base) campaign_not_eligible
  require (leb c.min_tier p.tier) campaign_not_eligible
  require (inactive_enough c p day) campaign_not_eligible

-- Progress that was never written, or that an earlier campaign of the same id left behind.
pub is_fresh_progress : Campaign → CampaignProgress → Bool
is_fresh_progress c g = g.campaign == default_key || not (g.campaign_slot == c.created_slot)

pub start_progress : Campaign → Pubkey → Pubkey → ℕ → CampaignProgress → CampaignProgress
unfolding is_fresh_progress
start_progress c campaign_key customer bump g =
    if is_fresh_progress c g
    then record {
      campaign = campaign_key;
      customer = customer;
      campaign_slot = c.created_slot;
      visits = 0;
      bonus_drawn = 0;
      completed = false;
      bump = bump;
    }
    else g

-- A quest counts the visit before it looks at the target.
pub count_visit : Campaign → CampaignProgress → CampaignProgress
count_visit c g =
    if c.kind == kind_quest then record g { visits = saturating_add u16_max g.visits 1 } else g

-- The bonus before the caps, of the progress that already counts this visit.
pub gross_bonus : Campaign → CampaignProgress → Merchant → ℕ → ℕ → Result VestaError ℕ
unfolding campaign_headroom_bps
gross_bonus c g m amount_base streak_preview =
    if c.kind == kind_multiplier
    then ok_or
        (and_then
          (scaled amount_base m.base_earn_rate
            (min c.multiplier_bps (campaign_headroom_bps streak_preview)))
          (try_from u64_max))
        multiplier_overflow
    else if c.kind == kind_flat_bonus
    then ok c.flat_bonus
    else if c.kind == kind_quest
    then ok (if not g.completed && leb c.quest_target g.visits then c.quest_reward else 0)
    else ok 0

-- Clamped by what the customer may still draw, then by what is left of the budget.
pub clamp_bonus : Campaign → CampaignProgress → ℕ → ℕ
clamp_bonus c g gross =
    let drawn =
      if ltb 0 c.per_customer_cap
      then min gross (saturating_sub c.per_customer_cap g.bonus_drawn)
      else gross in
    if ltb 0 c.points_budget
    then min drawn (saturating_sub c.points_budget c.points_spent)
    else drawn

pub completes : Campaign → ℕ → ℕ → Bool
completes c gross bonus = c.kind == kind_quest && ltb 0 gross && bonus == gross

-- The accounts of the instruction `earn_points_campaign`.
pub record EarnPointsCampaign : Type 0 where
  pub config : Config
  pub merchant_authority : Pubkey
  pub merchant_key : Pubkey
  pub merchant : Merchant
  pub customer : Pubkey
  pub customer_profile : CustomerProfile
  pub profile_bump : ℕ
  pub campaign_key : Pubkey
  pub campaign : Campaign
  pub campaign_progress : CampaignProgress
  pub progress_bump : ℕ
  pub point_mint : Pubkey

pub record CampaignEarned : Type 0 where
  pub accrual : Accrual
  pub campaign : Campaign
  pub progress : CampaignProgress
  pub bonus : ℕ
  pub quest_completed : Bool

-- The bookkeeping after the mint.
unfoldable pub book_campaign : Bool → ℕ → Campaign → Campaign
book_campaign fresh bonus c = record c {
  participant_count =
      if fresh then saturating_add u32_max c.participant_count 1 else c.participant_count;
  points_spent = saturating_add u64_max c.points_spent bonus;
  redemptions = saturating_add u64_max c.redemptions 1;
}

pub book_progress : Bool → ℕ → CampaignProgress → CampaignProgress
book_progress done bonus g = record g {
  bonus_drawn = saturating_add u64_max g.bonus_drawn bonus;
  completed = if done then true else g.completed;
}

pub book_profile : Bool → CustomerProfile → CustomerProfile
book_profile done p =
    if done
    then record p { campaigns_completed = saturating_add u16_max p.campaigns_completed 1 }
    else p

-- The bonus of this earn, its accrual, the mint and the bookkeeping.
pub pay_campaign :
    (ℕ → Result VestaError (Unit {0}))
    → Campaign
    → CampaignProgress
    → Bool
    → CustomerProfile
    → Merchant
    → ℕ
    → ℕ
    → Result VestaError CampaignEarned
unfolding count_visit gross_bonus clamp_bonus completes book_campaign book_progress book_profile
pay_campaign mint c started fresh p m amount_base day = do
  streak_preview ← preview_total_bps p day
  let g = count_visit c started
  gross ← gross_bonus c g m amount_base streak_preview
  let bonus = clamp_bonus c g gross
  let done = completes c gross bonus
  a ← accrue p m amount_base day bonus 0
  mint a.minted
  ok (record {
    accrual = record a { profile = book_profile done a.profile };
    campaign = book_campaign fresh bonus c;
    progress = book_progress done bonus g;
    bonus = bonus;
    quest_completed = done;
  })

-- Anchor's `has_one` on the merchant and on the campaign come first.
pub handle_earn_points_campaign :
    MintTo → EarnPointsCampaign → ℤ → ℕ → ℕ → Result VestaError CampaignEarned
unfolding check_eligible is_fresh_progress start_progress
handle_earn_points_campaign mint_to a now amount_base visit_day = do
  require (a.merchant.point_mint == a.point_mint) mint_mismatch
  require (a.campaign.merchant == a.merchant_key) merchant_mismatch
  earn_guards a.config a.merchant a.merchant_authority amount_base
  day ← current_day now visit_day
  (profile, merchant) ←
      init_profile_identity a.customer_profile a.merchant a.merchant_key a.customer a.profile_bump
  check_eligible a.campaign profile now day amount_base
  let fresh = is_fresh_progress a.campaign a.campaign_progress
  let started =
      start_progress a.campaign a.campaign_key a.customer a.progress_bump a.campaign_progress
  pay_campaign (mint_to a.point_mint a.customer) a.campaign started fresh profile merchant
      amount_base day
