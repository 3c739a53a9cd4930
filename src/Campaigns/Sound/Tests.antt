-- ===== src/Campaigns/Sound/Tests.antt =====
-- A concrete quest, created and retuned.
use vesta_core.Base.{refl, true, none, some, [], pos, Succeeds}
use vesta_core.Vesta.Merchant.{may_manage, can_operate}
use vesta_core.Vesta.Samples.{protocol, bakery}
use vesta_core.Merchants.{owner_only}
use vesta_core.Offers.{manager_only}
use vesta_core.Campaigns.{
  CampaignArgs, validate, validate_kind, UpdateCampaignArgs, set_ends_at, set_budget, set_cap,
  handle_create_campaign, handle_update_campaign,
}
use vesta_core.Campaigns.Sound.{IsSound, created, after, retuned, campaign-IsSound}

abbrev quest : CampaignArgs
quest = record {
  kind = 2;
  multiplier_bps = 0;
  flat_bonus = 0;
  quest_target = 3;
  quest_reward = 400;
  min_spend_base = 10;
  min_tier = 0;
  points_budget = 2_000;
  per_customer_cap = 0;
  starts_at = pos 0;
  ends_at = pos 9_000;
  name = [];
}

opened : Succeeds (handle_create_campaign protocol bakery 6 20 251 77 1 quest)
unfolding handle_create_campaign manager_only may_manage can_operate validate validate_kind
opened = (_, refl)

abbrev change : UpdateCampaignArgs
change = record {
  ends_at = some (pos 8_000);
  points_budget = some 400;
  per_customer_cap = none;
  paused = some true;
}

changed : Succeeds (handle_update_campaign bakery 6 20 opened.0 change)
unfolding opened handle_update_campaign owner_only set_ends_at set_budget set_cap
changed = (_, refl)

campaign-IsSound_example : IsSound changed.0
campaign-IsSound_example = campaign-IsSound (
    after (created protocol bakery 6 20 251 77 1 quest opened.1)
      (retuned bakery 6 20 change changed.1))
