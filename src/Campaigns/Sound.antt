-- ===== src/Campaigns/Sound.antt =====
-- What every created and retuned campaign keeps (programs/vesta-core/src/instructions/campaigns.rs).
mod Tests
use mathlib.Core.Path.{subst}
use vesta_core.Base.{
  ℕ, ◌≤◌, ◌-◌, saturating_add, u64_max, ◌<◌, ◌≡◌, ◌≢◌, ◌⊎◌, inl, inr, refl, sym, ap, ◌∙◌, ok-inj,
  ◌+◌, Bool, true, false, ◌||◌, ◌&&◌, not, Option, none, some, ℤ, ◌<ℤ◌, ltb_ℤ, leb, ltb, ◌==◌,
  arith, length, if◌then◌else◌, Result, ok, err, ◌>>=◌, ◌>>◌, require, >>=-ok, List, [], ◌∷◌,
  constraint, panic,
}
use vesta_core.Vesta.Constants.{Pubkey, campaign_max_bps, max_campaign_bonus, max_quest_target}
use vesta_core.Vesta.Error.{VestaError, protocol_paused, merchant_paused, merchant_mismatch}
use vesta_core.Vesta.Merchant.{Config, Merchant}
use vesta_core.Vesta.Campaign.{Campaign, kind_multiplier, kind_flat_bonus, kind_quest}
use vesta_core.Merchants.{owner_only}
use vesta_core.Offers.{manager_only}
use vesta_core.Earn.{MintTo}
use vesta_core.Earn.Campaign.{
  EarnPointsCampaign, CampaignEarned, handle_earn_points_campaign, book_campaign, clamp_bonus,
  count_visit,
}
use vesta_core.Earn.Campaign.Bonus.{handle_inv, clamp_bonus_bounds, resumed}
use vesta_core.Campaigns.{
  CampaignArgs, validate, validate_kind, none_or_at_least, UpdateCampaignArgs, set_ends_at,
  set_budget, set_cap, set_paused, handle_create_campaign, handle_update_campaign,
  handle_set_campaign_winback,
}

-- A payout of the campaign's kind is positive, limited, and for a quest neither above the budget nor
-- above the customer's cap.
abbrev pub Payout : Campaign → Type 0
Payout c =
    ((c.kind ≡ kind_multiplier) × (0 < c.multiplier_bps) × (c.multiplier_bps ≤ campaign_max_bps))
    ⊎ (((c.kind ≡ kind_flat_bonus) × (0 < c.flat_bonus) × (c.flat_bonus ≤ max_campaign_bonus))
        ⊎ ((c.kind ≡ kind_quest)
            × (0 < c.quest_target)
            × (c.quest_target ≤ max_quest_target)
            × (0 < c.quest_reward)
            × (c.quest_reward ≤ max_campaign_bonus)
            × ((c.per_customer_cap ≡ 0) ⊎ (c.quest_reward ≤ c.per_customer_cap))
            × ((c.points_budget ≡ 0) ⊎ (c.quest_reward ≤ c.points_budget))))

-- Its window is not empty, and what it has paid is within its budget if it has one.
pub record IsSound (c : Campaign) : Type 0 where
  pub window : c.starts_at <ℤ c.ends_at
  pub budget : (c.points_budget ≡ 0) ⊎ (c.points_spent ≤ c.points_budget)
  pub payout : Payout c

valid_window : (a : CampaignArgs) → validate a ≡ ok tt → a.starts_at <ℤ a.ends_at
unfolding validate
valid_window a h = ground arith

valid_kind : (a : CampaignArgs) → validate a ≡ ok tt → validate_kind a ≡ ok tt
unfolding validate
valid_kind a h = ground arith

-- A new campaign is as its arguments say, and has paid nothing.
record IsFrom (a : CampaignArgs) (c : Campaign) : Type 0 where
  kind : c.kind ≡ a.kind
  multiplier : c.multiplier_bps ≡ a.multiplier_bps
  bonus : c.flat_bonus ≡ a.flat_bonus
  target : c.quest_target ≡ a.quest_target
  reward : c.quest_reward ≡ a.quest_reward
  budget : c.points_budget ≡ a.points_budget
  cap : c.per_customer_cap ≡ a.per_customer_cap
  spent : c.points_spent ≡ 0
  window : (c.starts_at ≡ a.starts_at) × (c.ends_at ≡ a.ends_at)
  valid : validate a ≡ ok tt

create_inv :
    (config : Config) (m : Merchant) (merchant_key signer : Pubkey) (bump slot id : ℕ)
    (a : CampaignArgs) {c : Campaign}
    → handle_create_campaign config m merchant_key signer bump slot id a ≡ ok c
    → IsFrom a c
unfolding handle_create_campaign
create_inv config m merchant_key signer bump slot id a h =
    let (_, _, h) = >>=-ok (require (not config.paused) protocol_paused) _ h in
    let (_, _, h) = >>=-ok (require (not m.paused) merchant_paused) _ h in
    let (_, _, h) = >>=-ok (manager_only m signer) _ h in
    let (_, v, h) = >>=-ok (validate a) _ h in
    let made = ok-inj _ h refl in
    record {
      kind = ap (λ x. x.kind) made;
      multiplier = ap (λ x. x.multiplier_bps) made;
      bonus = ap (λ x. x.flat_bonus) made;
      target = ap (λ x. x.quest_target) made;
      reward = ap (λ x. x.quest_reward) made;
      budget = ap (λ x. x.points_budget) made;
      cap = ap (λ x. x.per_customer_cap) made;
      spent = ap (λ x. x.points_spent) made;
      window = (ap (λ x. x.starts_at) made, ap (λ x. x.ends_at) made);
      valid = v;
    }

valid-Payout : (a : CampaignArgs) (c : Campaign) → validate_kind a ≡ ok tt → IsFrom a c → Payout c
unfolding validate_kind
valid-Payout a c v f = ground arith

create-IsSound :
    (config : Config) (m : Merchant) (merchant_key signer : Pubkey) (bump slot id : ℕ)
    (a : CampaignArgs) {c : Campaign}
    → handle_create_campaign config m merchant_key signer bump slot id a ≡ ok c
    → IsSound c
create-IsSound config m merchant_key signer bump slot id a {c} h =
    let f = create_inv config m merchant_key signer bump slot id a h in
    record {
      window = rw (f.window.0, f.window.1) (valid_window a f.valid);
      budget = inr (omega (arith, f.spent));
      payout = valid-Payout a c (valid_kind a f.valid) f;
    }

set_ends_at-IsSound :
    (c : Campaign) (e : Option ℤ) {c' : Campaign} → IsSound c → set_ends_at c e ≡ ok c' → IsSound c'
unfolding set_ends_at
set_ends_at-IsSound c none s h = ground arith
set_ends_at-IsSound c (some e) s h = ground arith

set_budget-IsSound :
    (c : Campaign) (b : Option ℕ) {c' : Campaign} → IsSound c → set_budget c b ≡ ok c' → IsSound c'
unfolding set_budget
set_budget-IsSound c none s h = ground arith
set_budget-IsSound c (some b) s h = ground arith

set_cap-IsSound :
    (c : Campaign) (b : Option ℕ) {c' : Campaign} → IsSound c → set_cap c b ≡ ok c' → IsSound c'
unfolding set_cap
set_cap-IsSound c none s h = ground arith
set_cap-IsSound c (some b) s h = ground arith

set_paused-IsSound : (c : Campaign) (b : Option Bool) → IsSound c → IsSound (set_paused c b)
set_paused-IsSound c none s = s
set_paused-IsSound c (some b) s = record { window = s.window; budget = s.budget; payout = s.payout }

update-IsSound :
    (m : Merchant) (merchant_key signer : Pubkey) (c : Campaign) (a : UpdateCampaignArgs)
    {c' : Campaign}
    → IsSound c
    → handle_update_campaign m merchant_key signer c a ≡ ok c'
    → IsSound c'
unfolding handle_update_campaign
update-IsSound m merchant_key signer c a s h =
    let (_, _, h) = >>=-ok (owner_only m signer) _ h in
    let (_, _, h) = >>=-ok (require (c.merchant == merchant_key) merchant_mismatch) _ h in
    let (c1, e1, h) = >>=-ok (set_ends_at c a.ends_at) _ h in
    let (c2, e2, h) = >>=-ok (set_budget c1 a.points_budget) _ h in
    let (c3, e3, h) = >>=-ok (set_cap c2 a.per_customer_cap) _ h in
    let s3 =
      set_cap-IsSound c2 a.per_customer_cap
        (set_budget-IsSound c1 a.points_budget (set_ends_at-IsSound c a.ends_at s e1) e2) e3 in
    subst IsSound (ok-inj _ refl h) (set_paused-IsSound c3 a.paused s3)

winback-IsSound :
    (m : Merchant) (merchant_key signer : Pubkey) (c : Campaign) (days : ℕ) {c' : Campaign}
    → IsSound c
    → handle_set_campaign_winback m merchant_key signer c days ≡ ok c'
    → IsSound c'
unfolding handle_set_campaign_winback
winback-IsSound m merchant_key signer c days s h =
    let (_, _, h) = >>=-ok (require (c.merchant == merchant_key) merchant_mismatch) _ h in
    let (_, _, h) = >>=-ok (manager_only m signer) _ h in
    subst IsSound (ok-inj _ refl h)
      (record { window = s.window; budget = s.budget; payout = s.payout })

spent_within :
    (spent bonus budget : ℕ)
    → (budget ≡ 0) ⊎ (spent ≤ budget)
    → (budget ≡ 0) ⊎ (bonus ≤ budget - spent)
    → (budget ≡ 0) ⊎ (saturating_add u64_max spent bonus ≤ budget)
spent_within spent bonus budget h low = ground arith

booked-IsSound :
    (c : Campaign) (fresh : Bool) (bonus : ℕ)
    → IsSound c
    → (c.points_budget ≡ 0) ⊎ (bonus ≤ c.points_budget - c.points_spent)
    → IsSound (book_campaign fresh bonus c)
unfolding book_campaign
booked-IsSound c fresh bonus s low = record {
  window = s.window;
  budget = spent_within c.points_spent bonus c.points_budget s.budget low;
  payout = s.payout;
}

earn-IsSound :
    (mint_to : MintTo) (a : EarnPointsCampaign) (now : ℤ) (amount visit_day : ℕ)
    {r : CampaignEarned}
    → IsSound a.campaign
    → handle_earn_points_campaign mint_to a now amount visit_day ≡ ok r
    → IsSound r.campaign
earn-IsSound mint_to a now amount visit_day {r} s h =
    let k = (handle_inv mint_to a now amount visit_day h).payment in
    let (_, low, _) = clamp_bonus_bounds a.campaign (count_visit a.campaign (resumed a)) k.gross in
    subst IsSound (sym k.campaign) (booked-IsSound a.campaign _ r.bonus s (rw k.paid low))

-- The instructions that write a campaign.
pub data Step : Campaign → Campaign → Type 0 where
  retuned :
      (m : Merchant) (merchant_key signer : Pubkey) (a : UpdateCampaignArgs) {c c' : Campaign}
      → handle_update_campaign m merchant_key signer c a ≡ ok c'
      → Step c c'
  aimed :
      (m : Merchant) (merchant_key signer : Pubkey) (days : ℕ) {c c' : Campaign}
      → handle_set_campaign_winback m merchant_key signer c days ≡ ok c'
      → Step c c'
  earned :
      (mint_to : MintTo) (a : EarnPointsCampaign) (now : ℤ) (amount visit_day : ℕ)
      (r : CampaignEarned)
      → handle_earn_points_campaign mint_to a now amount visit_day ≡ ok r
      → Step a.campaign r.campaign

pub data Reachable : Campaign → Type 0 where
  created :
      (config : Config) (m : Merchant) (merchant_key signer : Pubkey) (bump slot id : ℕ)
      (a : CampaignArgs) {c : Campaign}
      → handle_create_campaign config m merchant_key signer bump slot id a ≡ ok c
      → Reachable c
  after : {c c' : Campaign} → Reachable c → Step c c' → Reachable c'

step-IsSound : {c c' : Campaign} → Step c c' → IsSound c → IsSound c'
step-IsSound (retuned m merchant_key signer a h) s = update-IsSound m merchant_key signer _ a s h
step-IsSound (aimed m merchant_key signer days h) s =
    winback-IsSound m merchant_key signer _ days s h
step-IsSound (earned mint_to a now amount visit_day r h) s =
    earn-IsSound mint_to a now amount visit_day s h

-- Whatever is earned under a campaign and however its owner retunes it or aims it at lapsed customers,
-- from its creation on: its window is not empty, it has paid no more than its budget if it has one, and
-- its payout is of one of the three kinds, positive and limited, and for a quest it fits the budget and
-- the customer's cap where there are ones.
pub campaign-IsSound : {c : Campaign} → Reachable c → IsSound c
campaign-IsSound (created config m merchant_key signer bump slot id a h) =
    create-IsSound config m merchant_key signer bump slot id a h
campaign-IsSound (after r step) = step-IsSound step (campaign-IsSound r)
