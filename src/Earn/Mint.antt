-- ===== src/Earn/Mint.antt =====
-- The amount that an accrual mints, and exactly when it succeeds.
use vesta_core.Base.{
  ℕ, ◌+◌, ◌*◌, ◌/◌, ◌≤◌, ◌<◌, ◌≡◌, refl, ◌↔◌, ◌⊎◌, min, arith, some, ok, Succeeds, u64_max,
  u128_max, >>=-ok, ok_or, le→leb, true,
}
use vesta_core.Vesta.Constants.{max_earn_per_tx, max_total_multiplier_bps}
use vesta_core.Vesta.Error.{multiplier_overflow}
use vesta_core.Vesta.Merchant.{Merchant}
use vesta_core.Vesta.Customer.{CustomerProfile}
use vesta_core.Earn.{
  Accrual, next_streak, multiplier_bps, scaled, tier_for, issued_before, under_cap, accrue,
}

-- 100 %, 2 % for each of at most 30 days of streak, and the extra boost, at most 240 % together.
abbrev pub multiplier_of : ℕ → ℕ → ℕ
multiplier_of streak extra = min (10_000 + min streak 30 * 200 + extra) max_total_multiplier_bps

pub multiplier_bps_lem :
    (streak extra : ℕ)
    → 10_000 + min streak 30 * 200 + extra ≤ u64_max
    → multiplier_bps streak extra ≡ ok (multiplier_of streak extra)
unfolding multiplier_bps
multiplier_bps_lem streak extra h = ground arith

pub multiplier_bps_inv :
    (streak extra : ℕ) {bps : ℕ}
    → multiplier_bps streak extra ≡ ok bps
    → (bps ≡ multiplier_of streak extra) × (10_000 + min streak 30 * 200 + extra ≤ u64_max)
unfolding multiplier_bps
multiplier_bps_inv streak extra h = ground arith

pub scaled_inv :
    (amount rate bps : ℕ) {v : ℕ}
    → scaled amount rate bps ≡ some v
    → v ≡ amount * rate * bps / 10_000
unfolding scaled
scaled_inv amount rate bps h = ground arith

le-mul_pos : (a b : ℕ) → 0 < b → a ≤ a * b
le-mul_pos a b h = grind arith

pub scaled_lem :
    (amount rate bps : ℕ)
    → 0 < bps
    → amount * rate * bps ≤ u128_max
    → scaled amount rate bps ≡ some (amount * rate * bps / 10_000)
unfolding scaled
scaled_lem amount rate bps p h = ground (arith, le-mul_pos (amount * rate) bps p)

-- What a successful accrual has established, field by field.
pub record Accrued (p : CustomerProfile) (m : Merchant) (amount day bonus extra : ℕ) (r : Accrual)
    : Type 0 where
  pub boost_fits : 10_000 + min (next_streak p day) 30 * 200 + extra ≤ u64_max
  pub bps_exact : r.total_bps ≡ multiplier_of (next_streak p day) extra
  pub mint_exact : r.minted ≡ amount * m.base_earn_rate * r.total_bps / 10_000 + bonus
  pub mint_capped : r.minted ≤ max_earn_per_tx
  pub earned_exact : r.profile.lifetime_earned ≡ p.lifetime_earned + r.minted
  pub earned_fits : r.profile.lifetime_earned ≤ u64_max
  pub issued_exact : r.merchant.lifetime_points_issued ≡ m.lifetime_points_issued + r.minted
  pub issued_fits : r.merchant.lifetime_points_issued ≤ u128_max
  pub today_exact : r.merchant.issued_today ≡ issued_before m day + r.minted
  pub today_fits : r.merchant.issued_today ≤ u64_max
  pub today_capped : (m.daily_issue_cap_raw ≡ 0) ⊎ (r.merchant.issued_today ≤ m.daily_issue_cap_raw)
  pub rolled : r.merchant.issue_day ≡ day
  pub streak_exact : r.profile.streak_days ≡ next_streak p day
  pub visited : r.profile.last_visit_day ≡ day
  pub tier_exact : r.profile.tier ≡ tier_for r.profile.lifetime_earned
  pub cap_kept : r.merchant.daily_issue_cap_raw ≡ m.daily_issue_cap_raw
  pub rate_kept : r.merchant.base_earn_rate ≡ m.base_earn_rate

pub accrue_inv :
    (p : CustomerProfile) (m : Merchant) (amount day bonus extra : ℕ) {r : Accrual}
    → accrue p m amount day bonus extra ≡ ok r
    → Accrued p m amount day bonus extra r
unfolding accrue
accrue_inv p m amount day bonus extra h =
    let (bps, e, h1) = >>=-ok (multiplier_bps (next_streak p day) extra) _ h in
    let (base, e', h2) =
      >>=-ok (ok_or (scaled amount m.base_earn_rate bps) multiplier_overflow) _ h1 in
    ground (
      arith,
      multiplier_bps_inv (next_streak p day) extra e,
      scaled_inv amount m.base_earn_rate bps {v = base},
    )

-- The minted amount, in unbounded arithmetic.
abbrev pub mint_of : CustomerProfile → Merchant → ℕ → ℕ → ℕ → ℕ → ℕ
mint_of p m amount day bonus extra =
    amount * m.base_earn_rate * multiplier_of (next_streak p day) extra / 10_000 + bonus

-- What an accrual needs: the boost fits its type, the mint is within the limit of one transaction,
-- the three running totals fit their types and the day's total is within the merchant's cap.
pub record Admissible (p : CustomerProfile) (m : Merchant) (amount day bonus extra : ℕ)
    : Type 0 where
  pub boost_fits : 10_000 + min (next_streak p day) 30 * 200 + extra ≤ u64_max
  pub mint_capped : mint_of p m amount day bonus extra ≤ max_earn_per_tx
  pub earned_fits : p.lifetime_earned + mint_of p m amount day bonus extra ≤ u64_max
  pub issued_fits : m.lifetime_points_issued + mint_of p m amount day bonus extra ≤ u128_max
  pub today_fits : issued_before m day + mint_of p m amount day bonus extra ≤ u64_max
  pub today_capped :
      (m.daily_issue_cap_raw ≡ 0)
      ⊎ (issued_before m day + mint_of p m amount day bonus extra ≤ m.daily_issue_cap_raw)

under_cap_lem : (cap issued : ℕ) → (cap ≡ 0) ⊎ (issued ≤ cap) → under_cap cap issued ≡ true
unfolding under_cap
under_cap_lem cap issued h = ground arith

accrue-Admissible :
    (p : CustomerProfile) (m : Merchant) (amount day bonus extra : ℕ)
    → Admissible p m amount day bonus extra
    → Succeeds (accrue p m amount day bonus extra)
unfolding accrue
accrue-Admissible p m amount day bonus extra a =
    let minted : ℕ = mint_of p m amount day bonus extra in
    let base : amount * m.base_earn_rate * multiplier_of (next_streak p day) extra / 10_000
        ≤ u64_max =
      omega (arith, a.mint_capped) in
    let fits : minted ≤ u64_max = omega (arith, a.mint_capped) in
    rw
      (
        multiplier_bps_lem (next_streak p day) extra a.boost_fits,
        scaled_lem amount m.base_earn_rate (multiplier_of (next_streak p day) extra) (omega arith)
            (omega (arith, a.mint_capped)),
        le→leb _ _ base,
        le→leb minted u64_max fits,
        le→leb _ _ a.mint_capped,
        le→leb _ _ a.earned_fits,
        le→leb _ _ a.issued_fits,
        le→leb _ _ a.today_fits,
        under_cap_lem _ _ a.today_capped,
      )
      (_, refl)

-- An accrual succeeds exactly when it is admissible: no 128-bit product can overflow first.
pub accrue_ok_iff :
    (p : CustomerProfile) (m : Merchant) (amount day bonus extra : ℕ)
    → Succeeds (accrue p m amount day bonus extra) ↔ Admissible p m amount day bonus extra
accrue_ok_iff p m amount day bonus extra = (
  λ s. ground (arith, accrue_inv p m amount day bonus extra s.1),
  accrue-Admissible p m amount day bonus extra,
)
