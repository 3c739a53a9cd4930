-- ===== src/Vesta/Samples.antt =====
-- Accounts of the loyalty program for runs on concrete data.
use vesta_core.Base.{true, false, none, [], ◌∷◌, pos}
use vesta_core.Vesta.Merchant.{Config, Merchant}
use vesta_core.Vesta.Customer.{CustomerProfile}

abbrev pub protocol : Config
protocol = record { admin = 1; pending_admin = none; paused = false; bump = 255 }

abbrev pub bakery : Merchant
bakery = record {
  id = 7;
  authority = 20;
  point_mint = 21;
  treasury = 22;
  name = [];
  decay_rate_bps = pos 0;
  base_earn_rate = 10;
  lifetime_points_issued = 900_000;
  customer_count = 4;
  joined_alliance = none;
  operators = 0 ∷ 0 ∷ 0 ∷ 0 ∷ [];
  operator_count = 0;
  paused = false;
  verified = true;
  category = 1;
  metadata_uri = [];
  lifetime_redemptions = 0;
  badges_issued = 0;
  lifetime_clawed_back = 0;
  clawback_count = 0;
  clawback_daily_cap_raw = 0;
  clawed_today = 0;
  clawback_day = 0;
  bump = 254;
  mint_bump = 253;
  issue_status = 0;
  daily_issue_cap_raw = 0;
  issued_today = 0;
  issue_day = 0;
  governance_enabled = false;
  cashier = 0;
  campaign_manager = 0;
}

abbrev pub guest : CustomerProfile
guest = record {
  wallet = 0;
  merchant = 0;
  streak_days = 0;
  last_visit_day = 0;
  lifetime_earned = 0;
  lifetime_redemptions = 0;
  tier = 0;
  lifetime_spend_base = 0;
  campaigns_completed = 0;
  lifetime_clawed_back = 0;
  clawback_count = 0;
  bump = 0;
}
