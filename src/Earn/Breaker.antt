-- ===== src/Earn/Breaker.antt =====
-- The issuance breaker over any sequence of accruals of one merchant.
use vesta_core.Base.{
  ℕ, ◌+◌, ◌≤◌, ◌<◌, ◌≡◌, refl, ◌⊎◌, inl, inr, List, [], ◌∷◌, arith, Result, ok, err, constraint,
  panic, ◌==◌, if◌then◌else◌,
}
use vesta_core.Vesta.Merchant.{Merchant}
use vesta_core.Vesta.Customer.{CustomerProfile}
use vesta_core.Vesta.Error.{VestaError}
use vesta_core.Earn.{Accrual, issued_before, accrue}
use vesta_core.Earn.Mint.{accrue_inv}

-- One request to accrue, for any customer.
pub record Visit : Type 0 where
  pub profile : CustomerProfile
  pub amount : ℕ
  pub day : ℕ
  pub bonus : ℕ
  pub extra : ℕ

-- A mint: its day and its amount.
abbrev pub Mint : Type 0
Mint = ℕ × ℕ

-- A refused request leaves the merchant as it was.
settle : Merchant → ℕ → Result VestaError Accrual → Merchant
settle m day (ok r) = r.merchant
settle m day _ = m

minted_by : Result VestaError Accrual → ℕ
minted_by (ok r) = r.minted
minted_by _ = 0

attempt : Merchant → Visit → Result VestaError Accrual
attempt m v = accrue v.profile m v.amount v.day v.bonus v.extra

-- The mints of a sequence of requests, each a transaction of its own.
pub mints : Merchant → List Visit → List Mint
unfolding settle minted_by attempt
mints m [] = []
mints m (v ∷ vs) = (v.day, minted_by (attempt m v)) ∷ mints (settle m v.day (attempt m v)) vs

pub minted_on : ℕ → List Mint → ℕ
minted_on d [] = 0
minted_on d ((day, n) ∷ ms) = (if day == d then n else 0) + minted_on d ms

-- The requests come in the order of their days, none before `day`.
abbrev pub IsChronological : ℕ → List Visit → Type 0
IsChronological day [] = Unit
IsChronological day (v ∷ vs) = (day ≤ v.day) × IsChronological v.day vs

-- A request on day `e` mints nothing, or leaves the counter of that day within the cap.
record Settled (m : Merchant) (day : ℕ) (m' : Merchant) (n : ℕ) : Type 0 where
  cap_kept : m'.daily_issue_cap_raw ≡ m.daily_issue_cap_raw
  effect :
      ((n ≡ 0) × (m' ≡ m))
      ⊎ ((m'.issue_day ≡ day)
          × (m'.issued_today ≡ issued_before m day + n)
          × ((m.daily_issue_cap_raw ≡ 0) ⊎ (m'.issued_today ≤ m.daily_issue_cap_raw)))

settle_lem :
    (p : CustomerProfile) (m : Merchant) (amount day bonus extra : ℕ)
    (r : Result VestaError Accrual)
    → accrue p m amount day bonus extra ≡ r
    → Settled m day (settle m day r) (minted_by r)
unfolding settle minted_by
settle_lem p m amount day bonus extra (ok r) h =
    let facts = accrue_inv p m amount day bonus extra h in
    record {
      cap_kept = facts.cap_kept;
      effect = inr (facts.rolled, facts.today_exact, facts.today_capped);
    }
settle_lem p m amount day bonus extra (err _) h = record {
  cap_kept = refl;
  effect = inl (refl, refl);
}
settle_lem p m amount day bonus extra constraint h = record {
  cap_kept = refl;
  effect = inl (refl, refl);
}
settle_lem p m amount day bonus extra panic h = record {
  cap_kept = refl;
  effect = inl (refl, refl);
}

-- Nothing is minted on a day before the first request.
none_before :
    (d day : ℕ) (m : Merchant) (vs : List Visit)
    → d < day
    → IsChronological day vs
    → minted_on d (mints m vs) ≡ 0
unfolding mints minted_on
none_before d day m [] lt c = refl
none_before d day m (v ∷ vs) lt c =
    ground (arith, none_before d v.day (settle m v.day (attempt m v)) vs (omega arith) c.1)

IsChronological-weaken :
    (a b : ℕ) (vs : List Visit) → a ≤ b → IsChronological b vs → IsChronological a vs
IsChronological-weaken a b [] le c = tt
IsChronological-weaken a b (v ∷ vs) le c = (omega (arith, c.0), c.1)

issue_day_le :
    (m m' : Merchant) (day n : ℕ) → Settled m day m' n → m.issue_day ≤ day → m'.issue_day ≤ day
issue_day_le m m' day n s le = ground arith

issued_before_capped :
    (d day n : ℕ) (m m' : Merchant)
    → Settled m day m' n
    → issued_before m d ≤ m.daily_issue_cap_raw
    → 0 < m.daily_issue_cap_raw
    → issued_before m' d ≤ m.daily_issue_cap_raw
unfolding issued_before
issued_before_capped d day n m m' s low pos = ground arith

-- What a request adds to a day, given that nothing is minted later on an earlier day.
breaker_step :
    (d day n rest : ℕ) (m m' : Merchant)
    → Settled m day m' n
    → m.issue_day ≤ day
    → issued_before m d ≤ m.daily_issue_cap_raw
    → issued_before m' d + rest ≤ m.daily_issue_cap_raw
    → (d < day → rest ≡ 0)
    → issued_before m d + ((if day == d then n else 0) + rest) ≤ m.daily_issue_cap_raw
unfolding issued_before
breaker_step d day n rest m m' s le low ih none = ground arith

-- Whatever sequence of earns is requested, in the order of their days and for any customers: a
-- merchant with a daily issuance cap, whose counter starts within it, mints on no day more than
-- that cap, together with what its counter already held for that day; requests that are refused
-- mint nothing.
pub breaker_holds :
    (d : ℕ) (m : Merchant) (vs : List Visit)
    → 0 < m.daily_issue_cap_raw
    → issued_before m d ≤ m.daily_issue_cap_raw
    → IsChronological m.issue_day vs
    → issued_before m d + minted_on d (mints m vs) ≤ m.daily_issue_cap_raw
unfolding mints minted_on attempt
breaker_holds d m [] pos low c = omega arith
breaker_holds d m (v ∷ vs) pos low c =
    let m' = settle m v.day (attempt m v) in
    let s = settle_lem v.profile m v.amount v.day v.bonus v.extra (attempt m v) refl in
    let kept = s.cap_kept in
    let later =
      IsChronological-weaken m'.issue_day v.day vs (issue_day_le m m' v.day _ s c.0) c.1 in
    let low' = issued_before_capped d v.day _ m m' s low pos in
    breaker_step d v.day (minted_by (attempt m v)) (minted_on d (mints m' vs)) m m' s c.0 low
      (omega (arith, breaker_holds d m' vs (omega arith) (omega arith) later))
      (λ lt. none_before d v.day m' vs lt c.1)
