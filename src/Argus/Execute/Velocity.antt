-- ===== src/Argus/Execute/Velocity.antt =====
-- The daily limits over any sequence of hook calls on the counters of one wallet.
use mathlib.Core.Path.{subst₂}
use vesta_core.Base.{
  sym, ◌∙◌, ℕ, ◌+◌, ◌≤◌, ◌<◌, ◌≡◌, refl, Option, none, some, List, [], ◌∷◌, ℤ, arith, unix_day,
  ◌==◌, if◌then◌else◌, Result, ok, err, constraint, panic, u16_max,
}
use vesta_core.Argus.Error.{GuardError}
use vesta_core.Argus.State.{GuardConfig, WalletPolicyState}
use vesta_core.Argus.Execute.{Programs, Execute, roll_day, handle_execute}
use vesta_core.Argus.Execute.Pace.{IsPaced}
use vesta_core.Argus.Execute.Gift.{transfer_respects_policy}

-- A hook call on some accounts, at a time of a known day.
pub record Call : Type 0 where
  pub accounts : Execute
  pub now : ℤ
  pub day : ℕ
  pub dated : unix_day now ≡ some day
  pub amount : ℕ

-- The call finds the wallet's counters as the calls before it left them.
abbrev pub with_state : WalletPolicyState → Execute → Execute
with_state s x = record x { wallet_state = record x.wallet_state { content = some s } }

attempt : Programs → WalletPolicyState → Call → Result GuardError (Option WalletPolicyState)
attempt env s c = (handle_execute env (with_state s c.accounts) c.now c.amount).result

-- The counters after a call, and the gifts that it made: one, with its day and amount, or none.
after : WalletPolicyState → Result GuardError (Option WalletPolicyState) → WalletPolicyState
after s (ok (some s')) = s'
after s _ = s

made : Call → Result GuardError (Option WalletPolicyState) → List (ℕ × ℕ)
made c (ok (some s')) = (c.day, c.amount) ∷ []
made c _ = []

append : List (ℕ × ℕ) → List (ℕ × ℕ) → List (ℕ × ℕ)
append [] gs = gs
append (g ∷ hs) gs = g ∷ append hs gs

-- The gifts of a sequence of calls.
pub gifts : Programs → WalletPolicyState → List Call → List (ℕ × ℕ)
unfolding after made append attempt
gifts env s [] = []
gifts env s (c ∷ cs) = append (made c (attempt env s c)) (gifts env (after s (attempt env s c)) cs)

pub sent_on : ℕ → List (ℕ × ℕ) → ℕ
sent_on d [] = 0
sent_on d ((day, n) ∷ gs) = (if day == d then n else 0) + sent_on d gs

pub count_on : ℕ → List (ℕ × ℕ) → ℕ
count_on d [] = 0
count_on d ((day, n) ∷ gs) = (if day == d then 1 else 0) + count_on d gs

-- The calls come in the order of their days, under policies with these two daily limits.
abbrev pub IsRun : ℕ → ℕ → ℕ → List Call → Type 0
IsRun volume count day [] = Unit
IsRun volume count day (c ∷ cs) =
    (day ≤ c.day)
    × (c.accounts.guard_config.daily_gift_cap ≡ volume)
    × (c.accounts.guard_config.transfers_per_day_cap ≡ count)
    × IsRun volume count c.day cs

-- What the counters hold for a day.
abbrev pub held : WalletPolicyState → ℕ → ℕ
held s d = if s.day == d then s.sent_today else 0

abbrev pub held_count : WalletPolicyState → ℕ → ℕ
held_count s d = if s.day == d then s.transfers_today else 0

-- A call makes no gift, or one that the rolled counters record within the limits.
record Settled (volume count : ℕ) (s : WalletPolicyState) (day amount : ℕ) (s' : WalletPolicyState)
    : Type 0 where
  dated : s'.day ≡ day
  sent : s'.sent_today ≡ held s day + amount
  sent_capped : s'.sent_today ≤ volume
  counted : s'.transfers_today ≡ held_count s day + 1
  count_capped : s'.transfers_today ≤ count

roll_day_lem :
    (s : WalletPolicyState) (today : ℕ)
    → ((roll_day s today).day ≡ today)
      × ((roll_day s today).sent_today ≡ held s today)
      × ((roll_day s today).transfers_today ≡ held_count s today)
unfolding roll_day
roll_day_lem s today = ground arith

same_some : {A : Type 0} {a b : A} → some a ≡ some b → a ≡ b
same_some h = cc

Settled-of :
    (config : GuardConfig) (volume count : ℕ) (s : WalletPolicyState) (day : ℕ) (now : ℤ)
    (amount : ℕ) (s' : WalletPolicyState)
    → 0 < count
    → count ≤ u16_max
    → config.daily_gift_cap ≡ volume
    → config.transfers_per_day_cap ≡ count
    → IsPaced config (roll_day s day) now amount s'
    → Settled volume count s day amount s'
Settled-of config volume count s day now amount s' pos fits cv cc' p =
    let (day_eq, sent_eq, count_eq) = roll_day_lem s day in
    record {
      dated = p.day_kept ∙ day_eq;
      sent = omega (arith, p.sent_exact, sent_eq);
      sent_capped = omega (arith, p.sent_capped);
      counted = ground (arith, p.count_exact, p.counted, count_eq);
      count_capped = ground (arith, p.count_exact, p.counted, count_eq);
    }

none_made :
    (d : ℕ) (c : Call) (r : Result GuardError (Option WalletPolicyState)) (gs : List (ℕ × ℕ))
    → d < c.day
    → (sent_on d gs ≡ 0) × (count_on d gs ≡ 0)
    → (sent_on d (append (made c r) gs) ≡ 0) × (count_on d (append (made c r) gs) ≡ 0)
unfolding made append sent_on count_on
none_made d c (ok (some s')) gs lt h = ground arith
none_made d c (ok none) gs lt h = h
none_made d c (err _) gs lt h = h
none_made d c constraint gs lt h = h
none_made d c panic gs lt h = h

gift-Settled :
    (env : Programs) (volume count : ℕ) (s : WalletPolicyState) (c : Call) (s' : WalletPolicyState)
    → 0 < count
    → count ≤ u16_max
    → c.accounts.guard_config.daily_gift_cap ≡ volume
    → c.accounts.guard_config.transfers_per_day_cap ≡ count
    → attempt env s c ≡ ok (some s')
    → Settled volume count s c.day c.amount s'
unfolding attempt
gift-Settled env volume count s c s' pos fits cv cc' h =
    let g = transfer_respects_policy env (with_state s c.accounts) c.now c.amount s' h in
    let loaded : g.stored ≡ s = same_some (sym g.content) in
    let today : g.today ≡ c.day = same_some (sym g.dated ∙ c.dated) in
    let p : IsPaced c.accounts.guard_config (roll_day s c.day) c.now c.amount s' =
      subst₂ (λ t d. IsPaced c.accounts.guard_config (roll_day t d) c.now c.amount s') loaded today
        g.paced in
    Settled-of c.accounts.guard_config volume count s c.day c.now c.amount s' pos fits cv cc' p

-- Nothing is given on a day before the first call.
none_before :
    (env : Programs) (volume count d day : ℕ) (s : WalletPolicyState) (cs : List Call)
    → d < day
    → IsRun volume count day cs
    → (sent_on d (gifts env s cs) ≡ 0) × (count_on d (gifts env s cs) ≡ 0)
unfolding gifts sent_on count_on
none_before env volume count d day s [] lt r = (refl, refl)
none_before env volume count d day s (c ∷ cs) lt r =
    none_made d c (attempt env s c) _ (omega (arith, r.0))
      (none_before env volume count d c.day (after s (attempt env s c)) cs (omega (arith, r.0)) r.3)

IsRun-weaken :
    (volume count a b : ℕ) (cs : List Call)
    → a ≤ b
    → IsRun volume count b cs
    → IsRun volume count a cs
IsRun-weaken volume count a b [] le r = tt
IsRun-weaken volume count a b (c ∷ cs) le r = (omega (arith, r.0), r.1, r.2, r.3)

-- The limits, for what the counters hold and what is still given.
abbrev pub IsLimited : ℕ → ℕ → ℕ → WalletPolicyState → List (ℕ × ℕ) → Type 0
IsLimited volume count d s gs =
    (held s d + sent_on d gs ≤ volume) × (held_count s d + count_on d gs ≤ count)

Settled-step :
    (volume count d : ℕ) (s : WalletPolicyState) (day amount : ℕ) (s' : WalletPolicyState)
    (gs : List (ℕ × ℕ))
    → Settled volume count s day amount s'
    → s.day ≤ day
    → IsLimited volume count d s []
    → (d < day → (sent_on d gs ≡ 0) × (count_on d gs ≡ 0))
    → IsLimited volume count d s' gs
    → IsLimited volume count d s ((day, amount) ∷ gs)
unfolding sent_on count_on
Settled-step volume count d s day amount s' gs h le low nothing ih = ground arith

Settled-low :
    (volume count d : ℕ) (s : WalletPolicyState) (day amount : ℕ) (s' : WalletPolicyState)
    → Settled volume count s day amount s'
    → IsLimited volume count d s' []
unfolding sent_on count_on
Settled-low volume count d s day amount s' h = ground arith

call_step :
    (env : Programs) (volume count d : ℕ) (s : WalletPolicyState) (c : Call) (cs : List Call)
    → 0 < count
    → count ≤ u16_max
    → IsRun volume count s.day (c ∷ cs)
    → IsLimited volume count d s []
    → ((t : WalletPolicyState)
        → IsRun volume count t.day cs
        → IsLimited volume count d t []
        → IsLimited volume count d t (gifts env t cs))
    → (r : Result GuardError (Option WalletPolicyState)) → attempt env s c ≡ r
    → IsLimited volume count d s (append (made c r) (gifts env (after s r) cs))
unfolding made append after
call_step env volume count d s c cs pos fits run low ih (ok (some s')) h =
    let settled = gift-Settled env volume count s c s' pos fits run.1 run.2 h in
    Settled-step volume count d s c.day c.amount s' (gifts env s' cs) settled run.0 low
      (λ lt. none_before env volume count d c.day s' cs lt run.3)
      (ih s' (rw settled.dated run.3) (Settled-low volume count d s c.day c.amount s' settled))
call_step env volume count d s c cs pos fits run low ih (ok none) h =
    ih s (IsRun-weaken volume count s.day c.day cs run.0 run.3) low
call_step env volume count d s c cs pos fits run low ih (err _) h =
    ih s (IsRun-weaken volume count s.day c.day cs run.0 run.3) low
call_step env volume count d s c cs pos fits run low ih constraint h =
    ih s (IsRun-weaken volume count s.day c.day cs run.0 run.3) low
call_step env volume count d s c cs pos fits run low ih panic h =
    ih s (IsRun-weaken volume count s.day c.day cs run.0 run.3) low

run_holds :
    (env : Programs) (volume count d : ℕ) (s : WalletPolicyState) (cs : List Call)
    → 0 < count
    → count ≤ u16_max
    → IsRun volume count s.day cs
    → IsLimited volume count d s []
    → IsLimited volume count d s (gifts env s cs)
unfolding gifts
run_holds env volume count d s [] pos fits run low = low
run_holds env volume count d s (c ∷ cs) pos fits run low =
    call_step env volume count d s c cs pos fits run low
      (λ t r l. run_holds env volume count d t cs pos fits r l) (attempt env s c) refl

-- For any sequence of hook calls on one wallet's counters, in the order of their days, with any
-- accounts and amounts, under policies with this daily volume limit and this count limit of at
-- least one: if the counters start within both limits, then on no day does the wallet give more
-- than the volume limit or more often than the count limit, together with what its counters
-- already held for that day.
pub velocity_holds :
    (env : Programs) (volume count d : ℕ) (s : WalletPolicyState) (cs : List Call)
    → 0 < count
    → count ≤ u16_max
    → IsRun volume count s.day cs
    → held s d ≤ volume
    → held_count s d ≤ count
    → IsLimited volume count d s (gifts env s cs)
unfolding sent_on count_on
velocity_holds env volume count d s cs pos fits run low few =
    run_holds env volume count d s cs pos fits run (omega arith, omega arith)
