-- ===== src/Koinon/Swap/Budget.antt =====
-- The daily inbound budget of a member over any sequence of swaps into it.
pub mod Tests
use mathlib.Core.Path.{subst}
use vesta_core.Base.{
  ltb→lt, ok-inj, require_inv, >>=-ok, ℕ, ◌+◌, ◌≤◌, ◌<◌, ◌≡◌, refl, sym, ◌⊎◌, inl, inr, Bool, true,
  false, Option, none, some, List, [], ◌∷◌, ℤ, leb, ltb, ◌==◌, if◌then◌else◌, Result, ok, err,
  constraint, panic, require, ok_or, unix_day, arith, leb→le, ap, ◌∙◌,
}
use vesta_core.Vesta.Error.{VestaError, overflow, slippage_exceeded, invalid_amount}
use vesta_core.Vesta.Alliance.{AllianceMember}
use vesta_core.Koinon.Swap.{
  TokenProgram, SwapPoints, Swapped, swapped_before, book_inbound, swap_guards, ui_points_to_raw,
  quote_out, handle_swap_points,
}

some_inv : {A : Type 0} (o : Option A) (e : VestaError) {a : A} → ok_or o e ≡ ok a → o ≡ some a
some_inv o e h = ground arith

-- The steps of a swap that goes through.
pub record IsSwapped (program : TokenProgram) (x : SwapPoints) (now : ℤ)
    (ui max_raw_in min_raw_out : ℕ) (r : Swapped) : Type 0 where
  pub both_active : (x.member_a.active ≡ true) × (x.member_b.active ≡ true)
  pub running : (x.config.paused ≡ false) × (x.alliance.paused ≡ false)
  pub trading : (x.merchant_a.paused ≡ false) × (x.merchant_b.paused ≡ false)
  pub positive : 0 < ui
  pub leg_a : ui_points_to_raw program.convert x.token_program x.mint_a ui ≡ ok r.burned
  pub in_bounds : (0 < r.burned) × (r.burned ≤ max_raw_in)
  pub ui_out : ℕ
  pub quoted :
      quote_out x.member_a.rate_bps_to_alliance x.member_b.rate_bps_to_alliance x.alliance.fee_bps
        ui
      ≡ ok ui_out
  pub leg_b : ui_points_to_raw program.convert x.token_program x.mint_b ui_out ≡ ok r.minted
  pub out_bounds : (0 < ui_out) × (min_raw_out ≤ r.minted)
  pub burnt : program.burn x.mint_a r.burned ≡ ok tt
  pub issued : program.mint_to x.mint_b r.minted ≡ ok tt
  pub dated : unix_day now ≡ some r.member_b.budget_day
  pub booked :
      r.member_b.swapped_in_today ≡ swapped_before x.member_b r.member_b.budget_day + r.minted
  pub within : r.member_b.swapped_in_today ≤ x.member_b.swap_in_budget_raw
  pub budget_kept : r.member_b.swap_in_budget_raw ≡ x.member_b.swap_in_budget_raw

guards_inv :
    (x : SwapPoints) (ui : ℕ)
    → swap_guards x ui ≡ ok tt
    → ((x.member_a.active ≡ true) × (x.member_b.active ≡ true))
      × ((x.config.paused ≡ false) × (x.alliance.paused ≡ false))
      × ((x.merchant_a.paused ≡ false) × (x.merchant_b.paused ≡ false))
      × (0 < ui)
unfolding swap_guards
guards_inv x ui h = ground arith

book_inv :
    (m : AllianceMember) (today raw : ℕ) {m' : AllianceMember}
    → book_inbound m today raw ≡ ok m'
    → (m'.budget_day ≡ today)
      × (m'.swapped_in_today ≡ swapped_before m today + raw)
      × (m'.swapped_in_today ≤ m.swap_in_budget_raw)
      × (m'.swap_in_budget_raw ≡ m.swap_in_budget_raw)
unfolding book_inbound
book_inv m today raw h = ground arith

-- A swap that succeeds, taken apart.
pub swap_lem :
    (program : TokenProgram) (x : SwapPoints) (now : ℤ) (ui max_raw_in min_raw_out : ℕ)
    (r : Swapped)
    → handle_swap_points program x now ui max_raw_in min_raw_out ≡ ok r
    → IsSwapped program x now ui max_raw_in min_raw_out r
unfolding handle_swap_points
swap_lem program x now ui max_raw_in min_raw_out r h =
    let (_, e0, h0) = >>=-ok (swap_guards x ui) _ h in
    let (raw_in, e1, h1) =
      >>=-ok (ui_points_to_raw program.convert x.token_program x.mint_a ui) _ h0 in
    let (_, e2, h2) = >>=-ok (require (ltb 0 raw_in) invalid_amount) _ h1 in
    let (_, e3, h3) = >>=-ok (require (leb raw_in max_raw_in) slippage_exceeded) _ h2 in
    let (out, e4, h4) =
      >>=-ok
        (quote_out x.member_a.rate_bps_to_alliance x.member_b.rate_bps_to_alliance
          x.alliance.fee_bps ui)
        _ h3 in
    let (_, e5, h5) = >>=-ok (require (ltb 0 out) invalid_amount) _ h4 in
    let (raw_out, e6, h6) =
      >>=-ok (ui_points_to_raw program.convert x.token_program x.mint_b out) _ h5 in
    let (_, e7, h7) = >>=-ok (require (leb min_raw_out raw_out) slippage_exceeded) _ h6 in
    let (today, e8, h8) = >>=-ok (ok_or (unix_day now) overflow) _ h7 in
    let (member, e9, h9) = >>=-ok (book_inbound x.member_b today raw_out) _ h8 in
    let (_, e10, h10) = >>=-ok (program.burn x.mint_a raw_in) _ h9 in
    let (_, e11, h11) = >>=-ok (program.mint_to x.mint_b raw_out) _ h10 in
    let (active, running, trading, positive) = guards_inv x ui e0 in
    let (rolled, exact, within, kept) = book_inv x.member_b today raw_out e9 in
    subst (IsSwapped program x now ui max_raw_in min_raw_out) (ok-inj _ refl h11) (record {
      both_active = active;
      running = running;
      trading = trading;
      positive = positive;
      leg_a = e1;
      in_bounds =
          (ltb→lt 0 raw_in (require_inv _ _ e2), leb→le raw_in max_raw_in (require_inv _ _ e3));
      ui_out = out;
      quoted = e4;
      leg_b = e6;
      out_bounds =
          (ltb→lt 0 out (require_inv _ _ e5), leb→le min_raw_out raw_out (require_inv _ _ e7));
      burnt = e10;
      issued = e11;
      dated = some_inv _ _ e8 ∙ ap some (sym rolled);
      booked = exact ∙ ap (λ d. swapped_before x.member_b d + raw_out) (sym rolled);
      within = within;
      budget_kept = kept;
    })

-- One request to swap into a member: the token program, the accounts but for that member, and the
-- arguments.
pub record Request : Type 0 where
  pub program : TokenProgram
  pub accounts : SwapPoints
  pub now : ℤ
  pub ui : ℕ
  pub max_raw_in : ℕ
  pub min_raw_out : ℕ

into : AllianceMember → SwapPoints → SwapPoints
into m x = record x { member_b = m }

attempt : AllianceMember → Request → Result VestaError Swapped
unfolding into
attempt m q = handle_swap_points q.program (into m q.accounts) q.now q.ui q.max_raw_in q.min_raw_out

-- A refused swap leaves the member as it was.
settle : AllianceMember → Result VestaError Swapped → AllianceMember
settle m (ok r) = r.member_b
settle m _ = m

-- What a result minted on day `d`.
minted_by : ℕ → Result VestaError Swapped → ℕ
minted_by d (ok r) = if r.member_b.budget_day == d then r.minted else 0
minted_by d _ = 0

-- What a sequence of swaps into one member mints on day `d`, each a transaction of its own.
pub inbound_on : ℕ → AllianceMember → List Request → ℕ
unfolding attempt settle minted_by
inbound_on d m [] = 0
inbound_on d m (q ∷ qs) = minted_by d (attempt m q) + inbound_on d (settle m (attempt m q)) qs

-- The clock never goes back before the member's last swap.
abbrev After : ℕ → Option ℕ → Type 0
After day none = Unit
After day (some today) = day ≤ today

pub IsClocked : AllianceMember → List Request → Type 0
unfolding attempt settle
IsClocked m [] = Unit
IsClocked m (q ∷ qs) = After m.budget_day (unix_day q.now) × IsClocked (settle m (attempt m q)) qs

-- A swap mints nothing and changes nothing, or it moves the member's counter.
record Moved (m m' : AllianceMember) (d n : ℕ) : Type 0 where
  kept : m'.swap_in_budget_raw ≡ m.swap_in_budget_raw
  effect :
      ((n ≡ 0) × (m' ≡ m))
      ⊎ ((m.budget_day ≤ m'.budget_day)
          × (m'.swapped_in_today ≤ m.swap_in_budget_raw)
          × (raw : ℕ) × (m'.swapped_in_today ≡ swapped_before m m'.budget_day + raw)
          × (n ≡ (if m'.budget_day == d then raw else 0)))

settle_lem :
    (d : ℕ) (m : AllianceMember) (q : Request) (r : Result VestaError Swapped)
    → attempt m q ≡ r
    → After m.budget_day (unix_day q.now)
    → Moved m (settle m r) d (minted_by d r)
unfolding attempt into settle minted_by
settle_lem d m q (ok r) h le =
    let s =
      swap_lem q.program (record q.accounts { member_b = m }) q.now q.ui q.max_raw_in q.min_raw_out
        r h in
    record {
      kept = s.budget_kept;
      effect = inr (subst (After m.budget_day) s.dated le, s.within, r.minted, s.booked, refl);
    }
settle_lem d m q (err _) h le = record { kept = refl; effect = inl (refl, refl) }
settle_lem d m q constraint h le = record { kept = refl; effect = inl (refl, refl) }
settle_lem d m q panic h le = record { kept = refl; effect = inl (refl, refl) }

Moved-quiet :
    (d n : ℕ) (m m' : AllianceMember)
    → Moved m m' d n
    → d < m.budget_day
    → (n ≡ 0) × (d < m'.budget_day)
Moved-quiet d n m m' s lt = ground arith

-- On a day before the member's counter nothing more is minted.
none_before :
    (d : ℕ) (m : AllianceMember) (qs : List Request)
    → d < m.budget_day
    → IsClocked m qs
    → inbound_on d m qs ≡ 0
unfolding inbound_on IsClocked
none_before d m [] lt c = refl
none_before d m (q ∷ qs) lt c =
    let s = settle_lem d m q (attempt m q) refl c.0 in
    let quiet = Moved-quiet d _ m (settle m (attempt m q)) s lt in
    omega (arith, quiet.0, none_before d (settle m (attempt m q)) qs quiet.1 c.1)

Moved-low :
    (d n : ℕ) (m m' : AllianceMember)
    → Moved m m' d n
    → swapped_before m d ≤ m.swap_in_budget_raw
    → swapped_before m' d ≤ m'.swap_in_budget_raw
unfolding swapped_before
Moved-low d n m m' s low = ground arith

Moved-step :
    (d n rest : ℕ) (m m' : AllianceMember)
    → Moved m m' d n
    → swapped_before m d ≤ m.swap_in_budget_raw
    → swapped_before m' d + rest ≤ m'.swap_in_budget_raw
    → (d < m'.budget_day → rest ≡ 0)
    → swapped_before m d + (n + rest) ≤ m.swap_in_budget_raw
unfolding swapped_before
Moved-step d n rest m m' s low ih quiet = ground arith

-- Whatever swaps into a member are asked for, by any customers, from any members and at any
-- rates: if the member's counter starts within its inbound budget and the clock does not run
-- back, the points minted on a day, with what the counter already held for that day, never
-- exceed the budget; refused swaps mint nothing.
pub budget_holds :
    (d : ℕ) (m : AllianceMember) (qs : List Request)
    → swapped_before m d ≤ m.swap_in_budget_raw
    → IsClocked m qs
    → swapped_before m d + inbound_on d m qs ≤ m.swap_in_budget_raw
unfolding inbound_on IsClocked
budget_holds d m [] low c = omega arith
budget_holds d m (q ∷ qs) low c =
    let m' = settle m (attempt m q) in
    let s = settle_lem d m q (attempt m q) refl c.0 in
    Moved-step d (minted_by d (attempt m q)) (inbound_on d m' qs) m m' s low
      (budget_holds d m' qs (Moved-low d _ m m' s low) c.1) (λ lt. none_before d m' qs lt c.1)
