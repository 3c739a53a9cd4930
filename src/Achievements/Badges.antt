-- ===== src/Achievements/Badges.antt =====
-- The badges of one achievement (programs/vesta-core/src/instructions/achievements.rs).
mod Tests
use vesta_core.Base.{
  ℕ, suc, ◌+◌, ◌≤◌, ◌≡◌, refl, sym, ap, ◌∙◌, Bool, true, false, not, none, List, [], ◌∷◌, ◌++◌, ℤ,
  arith, contains, length, ok, >>=-ok,
}
use vesta_core.Vesta.Constants.{Pubkey, Text}
use vesta_core.Vesta.Merchant.{Config, Merchant}
use vesta_core.Vesta.Catalog.{Achievement}
use vesta_core.Offers.{manager_only}
use vesta_core.Achievements.{
  handle_create_achievement, GrantAchievement, Platform, Granted, handle_grant_achievement, Call,
  mint_to, set_mint_authority,
}

-- Nobody is twice in the list.
abbrev pub AllDistinct : List Pubkey → Type 0
AllDistinct [] = Unit
AllDistinct (c ∷ cs) = (contains cs c ≡ false) × AllDistinct cs

created_badges :
    (config : Config) (m : Merchant) (merchant_key signer : Pubkey) (bump id : ℕ) (name uri : Text)
    (threshold : ℕ) {a : Achievement}
    → handle_create_achievement config m merchant_key signer bump id name uri threshold ≡ ok a
    → (a.badge_count ≡ 0) × (a.threshold_lifetime ≡ threshold)
unfolding handle_create_achievement manager_only
created_badges config m merchant_key signer bump id name uri threshold h = ground arith

grant_inv :
    (p : Platform) (g : GrantAchievement) (now : ℤ) {r : Granted}
    → handle_grant_achievement p g now ≡ ok r
    → (r.achievement.badge_count ≡ g.achievement.badge_count + 1)
      × (r.achievement.threshold_lifetime ≡ g.achievement.threshold_lifetime)
      × (g.achievement.threshold_lifetime ≤ g.customer_profile.lifetime_earned)
      × (g.receipt_in_use ≡ false)
unfolding handle_grant_achievement
grant_inv p g now h = ground arith

-- An achievement as it was created with a threshold, after grants to the customers of the list, the last
-- one first. A customer's receipt is in use exactly once the customer is in the list.
pub data Awarded (threshold : ℕ) : Achievement → List Pubkey → Type 0 where
  created :
      (config : Config) (m : Merchant) (merchant_key signer : Pubkey) (bump id : ℕ)
      (name uri : Text) {a : Achievement}
      → handle_create_achievement config m merchant_key signer bump id name uri threshold ≡ ok a
      → Awarded threshold a []
  granted :
      (p : Platform) (g : GrantAchievement) (now : ℤ) (r : Granted) {cs : List Pubkey}
      → Awarded threshold g.achievement cs
      → g.receipt_in_use ≡ contains cs g.customer
      → handle_grant_achievement p g now ≡ ok r
      → Awarded threshold r.achievement (g.customer ∷ cs)

-- An achievement's count of badges is the number of customers who got one, whoever asked for the grants
-- and however often, and none of them got two; its threshold is the one that it was created with.
pub badges_exact :
    {threshold : ℕ} {a : Achievement} {cs : List Pubkey}
    → Awarded threshold a cs
    → (a.badge_count ≡ length cs) × AllDistinct cs × (a.threshold_lifetime ≡ threshold)
badges_exact (created config m merchant_key signer bump id name uri h) =
    let (n, t) = created_badges config m merchant_key signer bump id name uri _ h in (n, tt, t)
badges_exact (granted p g now r w used h) =
    let (n, distinct, t) = badges_exact w in
    let (n', t', _, free) = grant_inv p g now h in
    (omega (arith, n, n'), (sym used ∙ free, distinct), t' ∙ t)
