-- ===== src/Earn/Gate.antt =====
-- Who may mint, and when: the guards of the two earn instructions.
use mathlib.Core.Path.{subst, subst₂}
use vesta_core.Base.{
  ℕ, ◌+◌, ◌*◌, ◌/◌, ap, ◌∙◌, refl, require, require_inv, ==→eq, eq→==, ◌≤◌, ◌<◌, ◌≡◌, ◌≢◌, ◌⊎◌,
  true, false, some, ℤ, arith, ok, err, >>=-ok, Succeeds, take, contains, ◌↔◌, ◌==◌, if◌then◌else◌,
  unix_day, u64_max,
}
use vesta_core.Vesta.Constants.{Pubkey, default_key, issue_normal, max_operators}
use vesta_core.Vesta.Error.{issuance_frozen, mint_mismatch}
use vesta_core.Vesta.Merchant.{Config, Merchant}
use vesta_core.Vesta.Customer.{CustomerProfile}
use vesta_core.Earn.Mint.{Admissible, accrue_ok_iff, accrue_inv, mint_of}
use vesta_core.Earn.{
  Accrual, MintTo, EarnPoints, accrue, current_day, init_profile_identity, earn_guards,
  segment_boost_bps, handle_earn_points,
}

-- The keys that may run the mint path: the cashier alone under governance, else the owner and the
-- first `operator_count` operators.
abbrev pub MayMint : Merchant → Pubkey → Type 0
MayMint m signer =
    ((m.governance_enabled ≡ true) × (signer ≡ m.cashier))
    ⊎ ((m.governance_enabled ≡ false)
        × ((signer ≡ m.authority)
            ⊎ ((m.operator_count ≤ max_operators)
                × (contains (take m.operator_count m.operators) signer ≡ true))))

-- The protocol and the merchant run, issuance is in its normal posture, the signer may mint, and
-- there is something to earn on.
pub record IsOpen (config : Config) (m : Merchant) (signer amount : ℕ) : Type 0 where
  pub running : config.paused ≡ false
  pub trading : m.paused ≡ false
  pub normal : m.issue_status ≡ issue_normal
  pub entitled : MayMint m signer
  pub positive : 0 < amount

-- The guards pass exactly when the protocol and the merchant are not paused, the issuance posture is
-- normal, the signer may mint for the merchant, and the amount is not zero.
pub earn_guards_iff :
    (config : Config) (m : Merchant) (signer amount : ℕ)
    → (earn_guards config m signer amount ≡ ok tt) ↔ IsOpen config m signer amount
unfolding earn_guards
earn_guards_iff config m signer amount = (λ h. ground arith, λ o. ground arith)

-- The profile and the merchant as the first steps leave them.
abbrev pub stamped : EarnPoints → CustomerProfile × Merchant
stamped a =
    if a.customer_profile.wallet == default_key
    then (
      record a.customer_profile {
        wallet = a.customer;
        merchant = a.merchant_key;
        bump = a.profile_bump;
      },
      record a.merchant { customer_count = a.merchant.customer_count + 1 },
    )
    else (a.customer_profile, a.merchant)

abbrev pub boost_of : EarnPoints → ℤ → ℕ
boost_of a now = segment_boost_bps a.merchant_segments a.customer_eligibility now

-- What `earn_points` needs.
pub record IsReady (mint_to : MintTo) (a : EarnPoints) (now : ℤ) (amount visit_day : ℕ)
    : Type 0 where
  pub paired : a.merchant.point_mint ≡ a.point_mint
  pub is_open : IsOpen a.config a.merchant a.merchant_authority amount
  pub dated : unix_day now ≡ some visit_day
  pub counted : (a.customer_profile.wallet ≢ default_key) ⊎ (a.merchant.customer_count < u64_max)
  pub admissible : Admissible (stamped a).0 (stamped a).1 amount visit_day 0 (boost_of a now)
  pub minting :
      mint_to a.point_mint a.customer
        (mint_of (stamped a).0 (stamped a).1 amount visit_day 0 (boost_of a now))
      ≡ ok tt

current_day_inv :
    (now : ℤ) (visit_day : ℕ) {day : ℕ}
    → current_day now visit_day ≡ ok day
    → (day ≡ visit_day) × (unix_day now ≡ some visit_day)
unfolding current_day
current_day_inv now visit_day h = ground arith

current_day_lem :
    (now : ℤ) (visit_day : ℕ)
    → unix_day now ≡ some visit_day
    → current_day now visit_day ≡ ok visit_day
unfolding current_day
current_day_lem now visit_day h = ground arith

stamp_inv :
    (a : EarnPoints) {pm : CustomerProfile × Merchant}
    → init_profile_identity a.customer_profile a.merchant a.merchant_key a.customer a.profile_bump
      ≡ ok pm
    → (pm ≡ stamped a)
      × ((a.customer_profile.wallet ≢ default_key) ⊎ (a.merchant.customer_count < u64_max))
unfolding init_profile_identity
stamp_inv a h = ground arith

stamp_lem :
    (a : EarnPoints)
    → (a.customer_profile.wallet ≢ default_key) ⊎ (a.merchant.customer_count < u64_max)
    → init_profile_identity a.customer_profile a.merchant a.merchant_key a.customer a.profile_bump
      ≡ ok (stamped a)
unfolding init_profile_identity
stamp_lem a h = ground arith

minted_exact :
    (p : CustomerProfile) (m : Merchant) (amount day bonus extra : ℕ) {r : Accrual}
    → accrue p m amount day bonus extra ≡ ok r
    → r.minted ≡ mint_of p m amount day bonus extra
minted_exact p m amount day bonus extra h =
    let facts = accrue_inv p m amount day bonus extra h in
    facts.mint_exact ∙ ap (λ bps. amount * m.base_earn_rate * bps / 10_000 + bonus) facts.bps_exact

earn-IsReady :
    (mint_to : MintTo) (a : EarnPoints) (now : ℤ) (amount visit_day : ℕ) {r : Accrual}
    → handle_earn_points mint_to a now amount visit_day ≡ ok r
    → IsReady mint_to a now amount visit_day
unfolding handle_earn_points
earn-IsReady mint_to a now amount visit_day h =
    let (_, e0, h0) = >>=-ok (require (a.merchant.point_mint == a.point_mint) mint_mismatch) _ h in
    let (_, e, h1) = >>=-ok (earn_guards a.config a.merchant a.merchant_authority amount) _ h0 in
    let (day, e1, h2) = >>=-ok (current_day now visit_day) _ h1 in
    let (pm, e2, h3) =
      >>=-ok
        (init_profile_identity a.customer_profile a.merchant a.merchant_key a.customer
          a.profile_bump)
        _ h2 in
    let (r, e3, h4) = >>=-ok (accrue pm.0 pm.1 amount day 0 (boost_of a now)) _ h3 in
    let (_, e4, _) = >>=-ok (mint_to a.point_mint a.customer r.minted) _ h4 in
    let (same, dated) = current_day_inv now visit_day e1 in
    let (named, counted) = stamp_inv a e2 in
    let accrued : accrue (stamped a).0 (stamped a).1 amount visit_day 0 (boost_of a now) ≡ ok r =
      subst₂
        (λ d (q : CustomerProfile × Merchant). accrue q.0 q.1 amount d 0 (boost_of a now) ≡ ok r)
        same named e3 in
    record {
      paired = ==→eq a.merchant.point_mint a.point_mint (require_inv _ _ e0);
      is_open = (earn_guards_iff a.config a.merchant a.merchant_authority amount).0 e;
      dated = dated;
      counted = counted;
      admissible =
          (accrue_ok_iff (stamped a).0 (stamped a).1 amount visit_day 0 (boost_of a now)).0
            (r, accrued);
      minting =
          subst (λ n. mint_to a.point_mint a.customer n ≡ ok tt)
            (minted_exact (stamped a).0 (stamped a).1 amount visit_day 0 (boost_of a now) accrued)
            e4;
    }

IsReady-earn :
    (mint_to : MintTo) (a : EarnPoints) (now : ℤ) (amount visit_day : ℕ)
    → IsReady mint_to a now amount visit_day
    → Succeeds (handle_earn_points mint_to a now amount visit_day)
unfolding handle_earn_points
IsReady-earn mint_to a now amount visit_day q =
    let (r, accrued) =
      (accrue_ok_iff (stamped a).0 (stamped a).1 amount visit_day 0 (boost_of a now)).1
        q.admissible in
    rw
      (
        eq→== _ _ q.paired,
        (earn_guards_iff a.config a.merchant a.merchant_authority amount).1 q.is_open,
        current_day_lem now visit_day q.dated,
        stamp_lem a q.counted,
        accrued,
        minted_exact (stamped a).0 (stamped a).1 amount visit_day 0 (boost_of a now) accrued,
        q.minting,
      )
      (r, refl)

-- On accounts that load, `earn_points` succeeds exactly when the mint is the merchant's own, the protocol and the merchant are
-- open to this signer and amount, the visit day is the day of the clock, a first visit can be counted,
-- the accrual of the stamped accounts with the segments' boost is admissible, and the token program
-- mints its amount to the customer.
pub earn_points_iff :
    (mint_to : MintTo) (a : EarnPoints) (now : ℤ) (amount visit_day : ℕ)
    → Succeeds (handle_earn_points mint_to a now amount visit_day)
      ↔ IsReady mint_to a now amount visit_day
earn_points_iff mint_to a now amount visit_day = (
  λ s. earn-IsReady mint_to a now amount visit_day s.1,
  IsReady-earn mint_to a now amount visit_day,
)

-- Whoever signs and whatever is asked, a merchant whose issuance posture is degraded mints nothing:
-- with its own mint and neither pause on, the refusal is `IssuanceFrozen`.
pub degraded_mints_nothing :
    (mint_to : MintTo) (a : EarnPoints) (now : ℤ) (amount visit_day : ℕ)
    → a.merchant.point_mint ≡ a.point_mint
    → a.config.paused ≡ false
    → a.merchant.paused ≡ false
    → a.merchant.issue_status ≢ issue_normal
    → handle_earn_points mint_to a now amount visit_day ≡ err issuance_frozen
unfolding handle_earn_points earn_guards
degraded_mints_nothing mint_to a now amount visit_day own run trade frozen = ground arith
