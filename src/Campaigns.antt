-- ===== src/Campaigns.antt =====
-- Creating, retuning and closing campaigns (programs/vesta-core/src/instructions/campaigns.rs).
pub mod Sound
use vesta_core.Base.{
  ℕ, Bool, true, false, ◌&&◌, ◌||◌, not, Option, none, some, ℤ, ltb_ℤ, leb, ltb, ◌==◌,
  if◌then◌else◌, length, Result, ok, err, ◌>>=◌, ◌>>◌, require,
}
use vesta_core.Vesta.Constants.{
  Pubkey, Text, campaign_max_bps, max_campaign_bonus, max_quest_target, max_campaign_name_len,
}
use vesta_core.Vesta.Error.{
  VestaError, protocol_paused, merchant_paused, string_too_long, campaign_window_invalid,
  merchant_mismatch,
}
use vesta_core.Vesta.Merchant.{Config, Merchant}
use vesta_core.Vesta.Campaign.{Campaign, kind_multiplier, kind_flat_bonus, kind_quest}
use vesta_core.Merchants.{owner_only}
use vesta_core.Offers.{manager_only}

pub record CampaignArgs : Type 0 where
  pub kind : ℕ
  pub multiplier_bps : ℕ
  pub flat_bonus : ℕ
  pub quest_target : ℕ
  pub quest_reward : ℕ
  pub min_spend_base : ℕ
  pub min_tier : ℕ
  pub points_budget : ℕ
  pub per_customer_cap : ℕ
  pub starts_at : ℤ
  pub ends_at : ℤ
  pub name : Text

-- An amount above 0 and within a limit; a limit of 0 that bounds nothing.
abbrev pub in_limit : ℕ → ℕ → Bool
in_limit n top = ltb 0 n && leb n top

abbrev pub none_or_at_least : ℕ → ℕ → Bool
none_or_at_least bound n = bound == 0 || leb n bound

unfoldable pub validate_kind : CampaignArgs → Result VestaError (Unit {0})
validate_kind a =
    if a.kind == kind_multiplier
    then require (in_limit a.multiplier_bps campaign_max_bps) campaign_window_invalid
    else if a.kind == kind_flat_bonus
    then require (in_limit a.flat_bonus max_campaign_bonus) campaign_window_invalid
    else if a.kind == kind_quest
    then (do
      require (in_limit a.quest_target max_quest_target) campaign_window_invalid
      require (in_limit a.quest_reward max_campaign_bonus) campaign_window_invalid
      require (none_or_at_least a.per_customer_cap a.quest_reward) campaign_window_invalid
      require (none_or_at_least a.points_budget a.quest_reward) campaign_window_invalid)
    else err campaign_window_invalid

unfoldable pub validate : CampaignArgs → Result VestaError (Unit {0})
unfolding validate_kind
validate a = do
  require (leb (length a.name) max_campaign_name_len) string_too_long
  require (ltb_ℤ a.starts_at a.ends_at) campaign_window_invalid
  validate_kind a

pub handle_create_campaign :
    Config → Merchant → Pubkey → Pubkey → ℕ → ℕ → ℕ → CampaignArgs → Result VestaError Campaign
unfolding validate
handle_create_campaign config m merchant_key signer bump slot id a = do
  require (not config.paused) protocol_paused
  require (not m.paused) merchant_paused
  manager_only m signer
  validate a
  ok (record {
    merchant = merchant_key;
    id = id;
    kind = a.kind;
    multiplier_bps = a.multiplier_bps;
    flat_bonus = a.flat_bonus;
    quest_target = a.quest_target;
    quest_reward = a.quest_reward;
    min_spend_base = a.min_spend_base;
    min_tier = a.min_tier;
    points_budget = a.points_budget;
    points_spent = 0;
    per_customer_cap = a.per_customer_cap;
    starts_at = a.starts_at;
    ends_at = a.ends_at;
    participant_count = 0;
    redemptions = 0;
    name = a.name;
    active = true;
    paused = false;
    created_slot = slot;
    bump = bump;
    min_days_inactive = 0;
  })

pub record UpdateCampaignArgs : Type 0 where
  pub ends_at : Option ℤ
  pub points_budget : Option ℕ
  pub per_customer_cap : Option ℕ
  pub paused : Option Bool

-- `if let Some(x) = field { … }`
pub set_ends_at : Campaign → Option ℤ → Result VestaError Campaign
set_ends_at c none = ok c
set_ends_at c (some ends_at) = do
  require (ltb_ℤ c.starts_at ends_at) campaign_window_invalid
  ok (record c { ends_at = ends_at })

abbrev pub is_quest : Campaign → Bool
is_quest c = c.kind == kind_quest

pub set_budget : Campaign → Option ℕ → Result VestaError Campaign
set_budget c none = ok c
set_budget c (some budget) = do
  require (none_or_at_least budget c.points_spent) campaign_window_invalid
  require (not (is_quest c) || none_or_at_least budget c.quest_reward) campaign_window_invalid
  ok (record c { points_budget = budget })

pub set_cap : Campaign → Option ℕ → Result VestaError Campaign
set_cap c none = ok c
set_cap c (some cap) = do
  require (not (is_quest c) || none_or_at_least cap c.quest_reward) campaign_window_invalid
  ok (record c { per_customer_cap = cap })

abbrev pub set_paused : Campaign → Option Bool → Campaign
set_paused c none = c
set_paused c (some paused) = record c { paused = paused }

pub handle_update_campaign :
    Merchant → Pubkey → Pubkey → Campaign → UpdateCampaignArgs → Result VestaError Campaign
unfolding set_ends_at set_budget set_cap
handle_update_campaign m merchant_key signer c a = do
  owner_only m signer
  require (c.merchant == merchant_key) merchant_mismatch
  c1 ← set_ends_at c a.ends_at
  c2 ← set_budget c1 a.points_budget
  c3 ← set_cap c2 a.per_customer_cap
  ok (set_paused c3 a.paused)

pub handle_set_campaign_winback :
    Merchant → Pubkey → Pubkey → Campaign → ℕ → Result VestaError Campaign
handle_set_campaign_winback m merchant_key signer c min_days_inactive = do
  require (c.merchant == merchant_key) merchant_mismatch
  manager_only m signer
  ok (record c { min_days_inactive = min_days_inactive })

-- The campaign's account is gone after.
pub handle_close_campaign : Merchant → Pubkey → Pubkey → Campaign → Result VestaError (Unit {0})
handle_close_campaign m merchant_key signer c = do
  owner_only m signer
  require (c.merchant == merchant_key) merchant_mismatch
