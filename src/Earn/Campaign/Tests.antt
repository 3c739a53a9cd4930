-- ===== src/Earn/Campaign/Tests.antt =====
-- Runs of a campaign's earn on concrete accounts.
use vesta_core.Base.{◌+◌, ◌*◌, ◌/◌, ◌≤◌, ◌<◌, ◌≡◌, refl, ◌⊎◌, true, false, [], pos, arith, Succeeds}
use vesta_core.Vesta.Constants.{max_total_multiplier_bps, max_earn_per_tx}
use vesta_core.Vesta.Campaign.{Campaign, CampaignProgress, kind_multiplier, kind_quest}
use vesta_core.Earn.{
  accrue, earn_guards, next_streak, tier_for, issued_before, multiplier_bps, scaled, reached,
  under_cap, current_day, init_profile_identity,
}
use vesta_core.Earn.Campaign.{
  EarnPointsCampaign, handle_earn_points_campaign, campaign_headroom_bps, preview_total_bps,
  inactive_enough, check_eligible, is_fresh_progress, start_progress, count_visit, gross_bonus,
  clamp_bonus, completes, book_campaign, book_progress, book_profile, pay_campaign,
}
use vesta_core.Earn.Campaign.Bonus.{campaign_budget_kept, customer_cap_kept, resumed}
use vesta_core.Earn.Campaign.Quest.{quest_pays_once}
use vesta_core.Earn.Campaign.Joint.{multiplier_joint_cap}
use vesta_core.Earn.Tests.{open_protocol, cafe, regular, noon, minter}

-- A quest of three visits, of which the customer has made two, with a budget.
abbrev quest : Campaign
quest = record {
  merchant = 40;
  id = 1;
  kind = kind_quest;
  multiplier_bps = 0;
  flat_bonus = 0;
  quest_target = 3;
  quest_reward = 400;
  min_spend_base = 10;
  min_tier = 0;
  points_budget = 2000;
  points_spent = 1500;
  per_customer_cap = 600;
  starts_at = pos 0;
  ends_at = pos 2_000_000_000;
  participant_count = 9;
  redemptions = 20;
  name = [];
  active = true;
  paused = false;
  created_slot = 77;
  bump = 251;
  min_days_inactive = 0;
}

abbrev two_visits : CampaignProgress
two_visits = record {
  campaign = 60;
  customer = 50;
  campaign_slot = 77;
  visits = 2;
  bonus_drawn = 0;
  completed = false;
  bump = 250;
}

abbrev quest_call : EarnPointsCampaign
quest_call = record {
  config = open_protocol;
  merchant_authority = 20;
  merchant_key = 40;
  merchant = cafe;
  customer = 50;
  customer_profile = regular;
  profile_bump = 252;
  campaign_key = 60;
  campaign = quest;
  campaign_progress = two_visits;
  progress_bump = 250;
  point_mint = 21;
}

quest_paid : Succeeds (handle_earn_points_campaign minter quest_call noon 100 19_000)
unfolding handle_earn_points_campaign earn_guards current_day init_profile_identity check_eligible
    inactive_enough is_fresh_progress start_progress pay_campaign preview_total_bps
    campaign_headroom_bps count_visit gross_bonus clamp_bonus completes book_campaign book_progress
    book_profile accrue next_streak multiplier_bps scaled issued_before under_cap tier_for reached
quest_paid = (_, refl)

campaign_budget_kept_example :
    (quest_paid.0.campaign.points_spent ≡ quest.points_spent + quest_paid.0.bonus)
    × (quest_paid.0.campaign.points_spent ≤ quest.points_budget)
    × (quest_paid.0.campaign.points_budget ≡ quest.points_budget)
campaign_budget_kept_example =
    campaign_budget_kept minter quest_call noon 100 19_000 quest_paid.0 (omega arith) (omega arith)
      (omega arith) quest_paid.1

nothing_drawn : (resumed quest_call).bonus_drawn ≤ quest.per_customer_cap
unfolding start_progress is_fresh_progress
nothing_drawn = omega arith

customer_cap_kept_example :
    (quest_paid.0.progress.bonus_drawn ≡ (resumed quest_call).bonus_drawn + quest_paid.0.bonus)
    × (quest_paid.0.progress.bonus_drawn ≤ quest.per_customer_cap)
customer_cap_kept_example =
    customer_cap_kept minter quest_call noon 100 19_000 quest_paid.0 (omega arith) (omega arith)
      nothing_drawn quest_paid.1

quest_pays_once_example :
    (((quest_paid.0.quest_completed ≡ false)
        × (quest_paid.0.bonus < quest.quest_reward)
        × (quest_paid.0.progress.completed ≡ (resumed quest_call).completed))
      ⊎ ((quest_paid.0.quest_completed ≡ true)
          × (quest_paid.0.bonus ≡ quest.quest_reward)
          × ((resumed quest_call).completed ≡ false)
          × (quest.quest_target ≤ quest_paid.0.progress.visits)
          × (quest_paid.0.progress.completed ≡ true)))
    × (((resumed quest_call).completed ≡ false)
        ⊎ ((quest_paid.0.bonus ≡ 0) × (quest_paid.0.quest_completed ≡ false)))
quest_pays_once_example =
    quest_pays_once minter quest_call noon 100 19_000 quest_paid.0 refl (omega arith) quest_paid.1

abbrev double_call : EarnPointsCampaign
double_call = record quest_call {
  campaign = record quest { kind = kind_multiplier; multiplier_bps = 20_000 };
}

double_paid : Succeeds (handle_earn_points_campaign minter double_call noon 100 19_000)
unfolding handle_earn_points_campaign earn_guards current_day init_profile_identity check_eligible
    inactive_enough is_fresh_progress start_progress pay_campaign preview_total_bps
    campaign_headroom_bps count_visit gross_bonus clamp_bonus completes book_campaign book_progress
    book_profile accrue next_streak multiplier_bps scaled issued_before under_cap tier_for reached
double_paid = (_, refl)

multiplier_joint_cap_example :
    (double_paid.0.accrual.minted ≤ 100 * cafe.base_earn_rate * max_total_multiplier_bps / 10_000)
    × (double_paid.0.accrual.minted ≤ max_earn_per_tx)
multiplier_joint_cap_example =
    multiplier_joint_cap minter double_call noon 100 19_000 double_paid.0 refl double_paid.1
