-- ===== src/Earn.antt =====
-- Earning points (programs/vesta-core/src/instructions/earn_points.rs): the accrual core that both
-- earn instructions share, and the plain earn. The token program's `mint_to` is a parameter: it mints
-- or fails the transaction.
pub mod Mint
pub mod Campaign
pub mod Breaker
pub mod Streak
pub mod Gate
mod Tests
use vesta_core.Base.{
  ℕ, zero, suc, ◌+◌, ◌-◌, ◌*◌, ◌≤◌, Bool, true, false, ◌&&◌, not, Option, none, some, List, [], ◌∷◌,
  ℤ, min, max, leb, ltb, ◌==◌, if◌then◌else◌, Result, ok, err, ◌>>=◌, ◌>>◌, require, ok_or,
  and_then, try_from, checked_add, checked_mul, checked_div, saturating_add, saturating_sub, u8_max,
  u16_max, u32_max, u64_max, u128_max, unix_day, length,
}
use vesta_core.Vesta.Constants.{
  Pubkey, default_key, issue_normal, max_earn_per_tx, max_total_multiplier_bps, streak_bps_per_day,
  streak_days_cap, tier_thresholds,
}
use vesta_core.Vesta.Error.{
  VestaError, protocol_paused, merchant_paused, issuance_frozen, unauthorized, invalid_amount,
  overflow, multiplier_overflow, earn_cap_exceeded, daily_issuance_cap_exceeded, stale_visit_day,
  mint_mismatch,
}
use vesta_core.Vesta.Merchant.{Config, Merchant, may_earn}
use vesta_core.Vesta.Customer.{
  CustomerProfile, Segment, MerchantSegments, CustomerEligibility, is_fresh, bit_is_set,
}

-- The streak after a visit on `day`: +1 on the next day, held on the same day, else reset.
pub next_streak : CustomerProfile → ℕ → ℕ
next_streak p day =
    if p.last_visit_day == day
    then max p.streak_days 1
    else elim (checked_add u32_max p.last_visit_day 1) [
      | some next ↦ if next == day then saturating_add u16_max p.streak_days 1 else 1
      | none ↦ 1
    ]

-- The streak's boost, and the multiplier with `extra_bps` added and clamped to the joint cap.
pub multiplier_bps : ℕ → ℕ → Result VestaError ℕ
multiplier_bps streak extra_bps = do
  streak_bps ←
      ok_or (checked_mul u64_max (min streak streak_days_cap) streak_bps_per_day)
        multiplier_overflow
  total ←
      ok_or
        (and_then (checked_add u64_max 10_000 streak_bps) (λ v. checked_add u64_max v extra_bps))
        multiplier_overflow
  ok (min total max_total_multiplier_bps)

-- `amount * rate * bps / 10 000` in 128 bits.
pub scaled : ℕ → ℕ → ℕ → Option ℕ
scaled amount rate bps =
    and_then (and_then (checked_mul u128_max amount rate) (λ v. checked_mul u128_max v bps))
      (λ v. checked_div v 10_000)

-- The thresholds that `earned` has reached.
pub reached : List ℕ → ℕ → List ℕ
reached [] earned = []
reached (t ∷ ts) earned = if leb t earned then t ∷ reached ts earned else reached ts earned

pub tier_for : ℕ → ℕ
unfolding reached
tier_for earned =
    elim (try_from u8_max (saturating_sub (length (reached tier_thresholds earned)) 1)) [
      | some tier ↦ tier
      | none ↦ u8_max
    ]

-- What `accrue` leaves in the two accounts, and the triple that it returns.
pub record Accrual : Type 0 where
  pub profile : CustomerProfile
  pub merchant : Merchant
  pub minted : ℕ
  pub streak_days : ℕ
  pub total_bps : ℕ

-- The issuance breaker's counter, rolled over to `day`.
pub issued_before : Merchant → ℕ → ℕ
issued_before m day = if m.issue_day == day then m.issued_today else 0

pub under_cap : ℕ → ℕ → Bool
under_cap cap issued = if ltb 0 cap then leb issued cap else true

pub accrue : CustomerProfile → Merchant → ℕ → ℕ → ℕ → ℕ → Result VestaError Accrual
unfolding issued_before under_cap
accrue p m amount_base day bonus_raw extra_bps = do
  let streak = next_streak p day
  total_bps ← multiplier_bps streak extra_bps
  base_minted ← ok_or (scaled amount_base m.base_earn_rate total_bps) multiplier_overflow
  minted ←
      ok_or (and_then (try_from u64_max base_minted) (λ b. checked_add u64_max b bonus_raw))
        multiplier_overflow
  require (leb minted max_earn_per_tx) earn_cap_exceeded
  earned ← ok_or (checked_add u64_max p.lifetime_earned minted) overflow
  issued ← ok_or (checked_add u128_max m.lifetime_points_issued minted) overflow
  today ← ok_or (checked_add u64_max (issued_before m day) minted) overflow
  require (under_cap m.daily_issue_cap_raw today) daily_issuance_cap_exceeded
  ok (record {
    profile = record p {
      streak_days = streak;
      last_visit_day = day;
      lifetime_earned = earned;
      lifetime_spend_base = saturating_add u64_max p.lifetime_spend_base amount_base;
      tier = tier_for earned;
    };
    merchant = record m { lifetime_points_issued = issued; issue_day = day; issued_today = today };
    minted = minted;
    streak_days = streak;
    total_bps = total_bps;
  })

-- The boosts of the active segments whose bit is set, from index `i` on.
pub boosts_from : ℕ → ℕ → List Segment → ℕ → ℕ
boosts_from i verdicts [] boost = boost
boosts_from i verdicts (s ∷ ss) boost =
    boosts_from (suc i) verdicts ss (
      if s.active && bit_is_set verdicts i then saturating_add u64_max boost s.boost_bps else boost)

pub segment_boost_bps : Option MerchantSegments → Option CustomerEligibility → ℤ → ℕ
unfolding boosts_from is_fresh
segment_boost_bps none _ now = 0
segment_boost_bps (some segs) none now = 0
segment_boost_bps (some segs) (some cel) now =
    if not (is_fresh cel segs.policy_epoch now)
    then 0
    else boosts_from 0 cel.verdicts segs.segments 0

pub current_day : ℤ → ℕ → Result VestaError ℕ
unfolding unix_day
current_day now visit_day = do
  day ← ok_or (unix_day now) overflow
  require (visit_day == day) stale_visit_day
  ok day

-- The first earn of a customer stamps the profile and counts the customer.
pub init_profile_identity :
    CustomerProfile
    → Merchant
    → Pubkey
    → Pubkey
    → ℕ
    → Result VestaError (CustomerProfile × Merchant)
init_profile_identity p m merchant_key customer bump =
    if p.wallet == default_key
    then (do
      count ← ok_or (checked_add u64_max m.customer_count 1) overflow
      ok (
        record p { wallet = customer; merchant = merchant_key; bump = bump },
        record m { customer_count = count },
      ))
    else ok (p, m)

-- `mint_to` of the token program: the mint, the owner of the account that receives, and the amount.
abbrev pub MintTo : Type 0
MintTo = Pubkey → Pubkey → ℕ → Result VestaError (Unit {0})

-- The accounts of the instruction `earn_points`; a key that only addresses an account is left out.
pub record EarnPoints : Type 0 where
  pub config : Config
  pub merchant_authority : Pubkey
  pub merchant_key : Pubkey
  pub merchant : Merchant
  pub customer : Pubkey
  pub customer_profile : CustomerProfile
  pub profile_bump : ℕ
  pub point_mint : Pubkey
  pub merchant_segments : Option MerchantSegments
  pub customer_eligibility : Option CustomerEligibility

-- The guards that both earn instructions begin with.
pub earn_guards : Config → Merchant → Pubkey → ℕ → Result VestaError (Unit {0})
unfolding may_earn
earn_guards config m signer amount_base = do
  require (not config.paused) protocol_paused
  require (not m.paused) merchant_paused
  require (m.issue_status == issue_normal) issuance_frozen
  allowed ← may_earn m signer
  require allowed unauthorized
  require (ltb 0 amount_base) invalid_amount

-- Anchor's `has_one = point_mint` on the merchant comes first.
pub handle_earn_points : MintTo → EarnPoints → ℤ → ℕ → ℕ → Result VestaError Accrual
unfolding segment_boost_bps
handle_earn_points mint_to a now amount_base visit_day = do
  require (a.merchant.point_mint == a.point_mint) mint_mismatch
  earn_guards a.config a.merchant a.merchant_authority amount_base
  day ← current_day now visit_day
  let extra_bps = segment_boost_bps a.merchant_segments a.customer_eligibility now
  (profile, merchant) ←
      init_profile_identity a.customer_profile a.merchant a.merchant_key a.customer a.profile_bump
  accrual ← accrue profile merchant amount_base day 0 extra_bps
  mint_to a.point_mint a.customer accrual.minted
  ok accrual
