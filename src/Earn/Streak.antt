-- ===== src/Earn/Streak.antt =====
-- The visit streak, its multiplier and the tier.
use vesta_core.Base.{ℕ, zero, suc, ◌+◌, ◌≤◌, ◌<◌, ◌≡◌, ◌⊎◌, min, arith, ok, u16_max, u32_max}
use vesta_core.Vesta.Constants.{max_total_multiplier_bps}
use vesta_core.Vesta.Merchant.{Merchant}
use vesta_core.Vesta.Customer.{CustomerProfile}
use vesta_core.Earn.{Accrual, next_streak, accrue, tier_for}
use vesta_core.Earn.Mint.{accrue_inv}

-- A visit always leaves a streak of at least one day, and of at most one more than before.
next_streak_bounds :
    (p : CustomerProfile) (day : ℕ)
    → p.streak_days ≤ u16_max
    → (1 ≤ next_streak p day) × (next_streak p day ≤ u16_max)
unfolding next_streak
next_streak_bounds p day h = ground arith

-- The profile after a visit on each of the `n` days that follow its last visit.
pub daily : ℕ → CustomerProfile → CustomerProfile
daily zero p = p
daily (suc n) p =
    let q = daily n p in
    record q {
      streak_days = next_streak q (q.last_visit_day + 1);
      last_visit_day = q.last_visit_day + 1;
    }

daily_day : (n : ℕ) (p : CustomerProfile) → (daily n p).last_visit_day ≡ p.last_visit_day + n
unfolding daily
daily_day zero p = omega arith
daily_day (suc n) p = omega (arith, daily_day n p)

next_day :
    (q : CustomerProfile)
    → q.last_visit_day < u32_max
    → next_streak q (q.last_visit_day + 1) ≡ min (q.streak_days + 1) u16_max
unfolding next_streak
next_day q h = ground arith

-- A customer who visits on every one of `n` days in a row after the last visit has `n` days more
-- of streak, up to the largest value of the field, as long as the last of these days fits its
-- type.
pub streak-daily :
    (n : ℕ) (p : CustomerProfile)
    → p.streak_days ≤ u16_max
    → p.last_visit_day + n ≤ u32_max
    → (daily n p).streak_days ≡ min (p.streak_days + n) u16_max
unfolding daily
streak-daily zero p low fits = omega arith
streak-daily (suc n) p low fits =
    omega (
      arith,
      streak-daily n p low (omega arith),
      next_day (daily n p) (omega (arith, daily_day n p)),
    )

-- A visit after a missed day, or on an earlier day, starts the streak again.
pub streak_reset :
    (p : CustomerProfile) (day : ℕ)
    → (p.last_visit_day + 1 < day) ⊎ (day < p.last_visit_day)
    → next_streak p day ≡ 1
unfolding next_streak
streak_reset p day h = ground arith

-- Every accrual multiplies by at least 1.02 and at most 2.4, whatever the segments and whatever
-- the stored streak, as long as it fits its type.
pub multiplier_bounds :
    (p : CustomerProfile) (m : Merchant) (amount day bonus extra : ℕ) (r : Accrual)
    → p.streak_days ≤ u16_max
    → accrue p m amount day bonus extra ≡ ok r
    → (10_200 ≤ r.total_bps) × (r.total_bps ≤ max_total_multiplier_bps)
multiplier_bounds p m amount day bonus extra r low h =
    omega (arith, next_streak_bounds p day low, (accrue_inv p m amount day bonus extra h).bps_exact)

tier_for_lem :
    (e : ℕ)
    → ((e < 100_000) × (tier_for e ≡ 0))
      ⊎ ((100_000 ≤ e) × (e < 1_000_000) × (tier_for e ≡ 1))
      ⊎ ((1_000_000 ≤ e) × (e < 10_000_000) × (tier_for e ≡ 2))
      ⊎ ((10_000_000 ≤ e) × (tier_for e ≡ 3))
unfolding tier_for
tier_for_lem e = ground arith

-- Earning never demotes: where the stored tier is the one of the points earned so far, an accrual
-- leaves the tier of the new total, which is at least the old one and at most 3.
pub tier_monotone :
    (p : CustomerProfile) (m : Merchant) (amount day bonus extra : ℕ) (r : Accrual)
    → p.tier ≡ tier_for p.lifetime_earned
    → accrue p m amount day bonus extra ≡ ok r
    → (p.tier ≤ r.profile.tier)
      × (r.profile.tier ≤ 3)
      × (r.profile.tier ≡ tier_for r.profile.lifetime_earned)
tier_monotone p m amount day bonus extra r same h =
    let facts = accrue_inv p m amount day bonus extra h in
    ground (
      arith,
      tier_for_lem p.lifetime_earned,
      tier_for_lem r.profile.lifetime_earned,
      facts.earned_exact,
      facts.tier_exact,
    )
