-- ===== src/Earn/Tests.antt =====
-- Runs of the earn instructions on concrete accounts.
use vesta_core.Base.{
  ok, ◌+◌, ◌≤◌, refl, ◌↔◌, true, false, none, List, [], ◌∷◌, ℤ, pos, arith, Succeeds,
}
use vesta_core.Vesta.Merchant.{Config, Merchant}
use vesta_core.Vesta.Customer.{CustomerProfile}
use vesta_core.Earn.{
  EarnPoints, MintTo, accrue, earn_guards, handle_earn_points, next_streak, tier_for, issued_before,
  multiplier_bps, scaled, reached, under_cap, boosts_from, segment_boost_bps, current_day,
  init_profile_identity,
}
use vesta_core.Earn.Mint.{accrue_ok_iff, Admissible}
use vesta_core.Earn.Breaker.{Visit, mints, minted_on, breaker_holds}
use vesta_core.Earn.Gate.{IsReady, earn_points_iff}

abbrev pub open_protocol : Config
open_protocol = record { admin = 1; pending_admin = none; paused = false; bump = 255 }

-- It pays 10 points for a unit of spend, and at most 5000 points a day.
abbrev pub cafe : Merchant
cafe = record {
  id = 7;
  authority = 20;
  point_mint = 21;
  treasury = 22;
  name = [];
  decay_rate_bps = pos 0;
  base_earn_rate = 10;
  lifetime_points_issued = 900_000;
  customer_count = 4;
  joined_alliance = none;
  operators = 30 ∷ 31 ∷ 0 ∷ 0 ∷ [];
  operator_count = 2;
  paused = false;
  verified = true;
  category = 1;
  metadata_uri = [];
  lifetime_redemptions = 0;
  badges_issued = 0;
  lifetime_clawed_back = 0;
  clawback_count = 0;
  clawback_daily_cap_raw = 0;
  clawed_today = 0;
  clawback_day = 0;
  bump = 254;
  mint_bump = 253;
  issue_status = 0;
  daily_issue_cap_raw = 5000;
  issued_today = 1000;
  issue_day = 19_000;
  governance_enabled = false;
  cashier = 0;
  campaign_manager = 0;
}

abbrev pub regular : CustomerProfile
regular = record {
  wallet = 50;
  merchant = 40;
  streak_days = 4;
  last_visit_day = 18_999;
  lifetime_earned = 99_000;
  lifetime_redemptions = 0;
  tier = 0;
  lifetime_spend_base = 0;
  campaigns_completed = 0;
  lifetime_clawed_back = 0;
  clawback_count = 0;
  bump = 252;
}

-- The token program mints what it is asked for.
abbrev pub minter : MintTo
minter mint owner amount = ok tt

abbrev visit : EarnPoints
visit = record {
  config = open_protocol;
  merchant_authority = 31;
  merchant_key = 40;
  merchant = cafe;
  customer = 50;
  customer_profile = regular;
  profile_bump = 252;
  point_mint = 21;
  merchant_segments = none;
  customer_eligibility = none;
}

-- Noon of day 19 000.
abbrev pub noon : ℤ
noon = pos 1_641_643_200

accrued : Succeeds (accrue regular cafe 100 19_000 0 0)
unfolding accrue next_streak multiplier_bps scaled issued_before under_cap tier_for reached
accrued = (_, refl)

accrue_ok_iff_example :
    Succeeds (accrue regular cafe 100 19_000 0 0) ↔ Admissible regular cafe 100 19_000 0 0
accrue_ok_iff_example = accrue_ok_iff regular cafe 100 19_000 0 0

earn_points_iff_example :
    Succeeds (handle_earn_points minter visit noon 100 19_000)
    ↔ IsReady minter visit noon 100 19_000
earn_points_iff_example = earn_points_iff minter visit noon 100 19_000

-- The plain earn does succeed there: 5 days of streak make 1100 points of 1000.
visited : Succeeds (handle_earn_points minter visit noon 100 19_000)
unfolding handle_earn_points earn_guards current_day init_profile_identity segment_boost_bps
    boosts_from accrue next_streak multiplier_bps scaled issued_before under_cap tier_for reached
visited = (_, refl)

abbrev spree : List Visit
spree =
    record { profile = regular; amount = 100; day = 19_000; bonus = 0; extra = 0 }
    ∷ record { profile = regular; amount = 200; day = 19_000; bonus = 50; extra = 0 }
    ∷ record { profile = regular; amount = 300; day = 19_000; bonus = 0; extra = 0 }
    ∷ record { profile = regular; amount = 400; day = 19_001; bonus = 0; extra = 0 }
    ∷ []

breaker_holds_example :
    issued_before cafe 19_000 + minted_on 19_000 (mints cafe spree) ≤ cafe.daily_issue_cap_raw
unfolding issued_before
breaker_holds_example =
    breaker_holds 19_000 cafe spree (omega arith) (omega arith)
      (omega arith, (omega arith, (omega arith, (omega arith, tt))))
