-- ===== src/Achievements/Badges/Tests.antt =====
-- Badges granted on concrete accounts.
use vesta_core.Base.{◌≡◌, ◌+◌, ◌*◌, refl, ◌∷◌, [], false, some, pos, ok, length, Succeeds}
use vesta_core.Vesta.Merchant.{may_manage, can_operate}
use vesta_core.Vesta.Samples.{protocol, bakery, guest}
use vesta_core.Offers.{manager_only}
use vesta_core.Achievements.{
  Platform, GrantAchievement, creation, invoke_all, handle_create_achievement,
  handle_grant_achievement,
}
use vesta_core.Achievements.Badges.{AllDistinct, created, granted, badges_exact}

abbrev platform : Platform
platform = record {
  mint_len = some 238;
  metadata_len = λ name symbol uri. some (99 + length name + length uri);
  minimum_balance = λ size. (size + 128) * 6_960;
  token_address = λ owner mint program. 1_000 + owner;
  invoke = λ call. ok tt;
}

opened : Succeeds (handle_create_achievement protocol bakery 6 20 242 1 (71 ∷ []) [] 500)
unfolding handle_create_achievement manager_only may_manage can_operate
opened = (_, refl)

abbrev first : GrantAchievement
first = record {
  merchant_key = 6;
  merchant = bakery;
  achievement_key = 90;
  achievement = opened.0;
  customer = 5;
  customer_profile = record guest { lifetime_earned = 500 };
  badge_mint = 91;
  badge_lamports = 0;
  badge_ata = 1_005;
  receipt_in_use = false;
  receipt_bump = 241;
  config = protocol;
  token_program = 1;
}

given : Succeeds (handle_grant_achievement platform first (pos 3_000))
unfolding opened handle_grant_achievement creation invoke_all
given = (_, refl)

-- Another customer, whose badge's address somebody has sent lamports to.
abbrev second : GrantAchievement
second = record first {
  achievement = given.0.achievement;
  customer = 8;
  badge_mint = 92;
  badge_lamports = 1_000;
  badge_ata = 1_008;
}

given_too : Succeeds (handle_grant_achievement platform second (pos 3_100))
unfolding opened given handle_grant_achievement creation invoke_all
given_too = (_, refl)

badges_exact_example :
    (given_too.0.achievement.badge_count ≡ 2)
    × AllDistinct (8 ∷ 5 ∷ [])
    × (given_too.0.achievement.threshold_lifetime ≡ 500)
badges_exact_example = badges_exact (
    granted platform second (pos 3_100) given_too.0
      (granted platform first (pos 3_000) given.0
        (created protocol bakery 6 20 242 1 (71 ∷ []) [] opened.1) refl given.1)
      refl given_too.1)
