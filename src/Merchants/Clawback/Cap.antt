-- ===== src/Merchants/Clawback/Cap.antt =====
-- The daily cap on clawbacks over any sequence of them (programs/vesta-core/src/instructions/clawback.rs).
mod Tests
use vesta_core.Base.{
  ℕ, ◌∙◌, suc, ◌+◌, ◌-◌, ◌/◌, ◌≤◌, ◌<◌, ◌≡◌, ◌≢◌, ◌⊎◌, inl, inr, refl, sym, Bool, true, false, not,
  Option, none, some, List, [], ◌∷◌, ℤ, pos_part, unix_day, arith, leb, ltb, ◌==◌, if◌then◌else◌,
  Result, ok, err, constraint, panic, ◌>>=◌, ◌>>◌, require, ok_or, Option-cases,
}
use vesta_core.Base.Daily.{
  Counter, used_on, Booking, booked_on, IsHistory, nothing, booked, daily_total,
}
use vesta_core.Vesta.Error.{VestaError}
use vesta_core.Vesta.Merchant.{Merchant}
use vesta_core.Merchants.Clawback.{
  ClawbackPoints, Clawed, clawed_before, book_clawback, touch_profile, handle_clawback,
}

-- A clawback that goes through: who may ask for it, and what it books.
pub record IsBooked (a : ClawbackPoints) (day amount reason : ℕ) (r : Clawed) : Type 0 where
  pub by_owner : a.merchant_authority ≡ a.merchant.authority
  pub reasoned : reason ≢ 0
  pub covered : amount ≤ a.customer_ata.amount
  pub rest : r.balance_after + amount ≡ a.customer_ata.amount
  pub rolled : r.merchant.clawback_day ≡ day
  pub total : r.merchant.clawed_today ≡ clawed_before a.merchant day + amount
  pub cap_kept : r.merchant.clawback_daily_cap_raw ≡ a.merchant.clawback_daily_cap_raw
  pub capped :
      (a.merchant.clawback_daily_cap_raw ≡ 0)
      ⊎ (r.merchant.clawed_today ≤ a.merchant.clawback_daily_cap_raw)

IsBooked-inv :
    (transfer : ℕ → Result VestaError (Unit {0})) (a : ClawbackPoints) (now : ℤ)
    (amount reason day : ℕ) {r : Clawed}
    → unix_day now ≡ some day
    → handle_clawback transfer a now amount reason ≡ ok r
    → IsBooked a day amount reason r
unfolding handle_clawback book_clawback touch_profile
IsBooked-inv transfer a now amount reason day e h = ground arith

undated :
    (transfer : ℕ → Result VestaError (Unit {0})) (a : ClawbackPoints) (now : ℤ) (amount reason : ℕ)
    {r : Clawed}
    → unix_day now ≡ none
    → handle_clawback transfer a now amount reason ≡ ok r
    → ⊥
unfolding handle_clawback
undated transfer a now amount reason e h = ground arith

-- One request for a clawback at a merchant, for any customer, with what the token program answers.
pub record Request : Type 0 where
  pub accounts : ClawbackPoints
  pub transfer : ℕ → Result VestaError (Unit {0})
  pub now : ℤ
  pub amount : ℕ
  pub reason : ℕ

-- The day of a clock, from 1970 on.
abbrev pub day_of : ℤ → ℕ
day_of now = pos_part now / 86_400

unix_day_inv : (now : ℤ) {day : ℕ} → unix_day now ≡ some day → day ≡ day_of now
unfolding unix_day
unix_day_inv now h = ground arith

-- A request against the merchant as the requests before it left it.
abbrev pub attempt : Merchant → Request → Result VestaError Clawed
attempt m q =
    handle_clawback q.transfer (record q.accounts { merchant = m }) q.now q.amount q.reason

abbrev pub settle : Merchant → Result VestaError Clawed → Merchant
settle m (ok r) = r.merchant
settle m (err _) = m
settle m constraint = m
settle m panic = m

abbrev pub note : Request → Result VestaError Clawed → List Booking → List Booking
note q (ok r) bs = (day_of q.now, q.amount) ∷ bs
note q (err _) bs = bs
note q constraint bs = bs
note q panic bs = bs

-- The amounts taken back, with their days.
pub taken : Merchant → List Request → List Booking
taken m [] = []
taken m (q ∷ qs) = note q (attempt m q) (taken (settle m (attempt m q)) qs)

-- The requests come in the order of their days, none before `day`.
abbrev pub IsInOrder : ℕ → List Request → Type 0
IsInOrder day [] = Unit
IsInOrder day (q ∷ qs) = (day ≤ day_of q.now) × IsInOrder (day_of q.now) qs

IsInOrder-weaken : (c d : ℕ) (qs : List Request) → c ≤ d → IsInOrder d qs → IsInOrder c qs
IsInOrder-weaken c d [] le o = tt
IsInOrder-weaken c d (q ∷ qs) le o = (omega (arith, o.0), o.1)

abbrev pub counter : Merchant → Counter
counter m = record { day = m.clawback_day; used = m.clawed_today }

IsBooked-today :
    (m : Merchant) (q : Request) {r : Clawed}
    → attempt m q ≡ ok r
    → IsBooked (record q.accounts { merchant = m }) (day_of q.now) q.amount q.reason r
IsBooked-today m q h = elim (Option-cases (unix_day q.now)) [
  | inl e ↦
      absurd (undated q.transfer (record q.accounts { merchant = m }) q.now q.amount q.reason e h)
  | inr (day, e) ↦
      rw (← unix_day_inv q.now e) (
        IsBooked-inv q.transfer (record q.accounts { merchant = m }) q.now q.amount q.reason day e
          h)
]

IsHistory-step :
    (limit : ℕ) (m : Merchant) (q : Request) (qs : List Request) (r : Result VestaError Clawed)
    → attempt m q ≡ r
    → m.clawback_daily_cap_raw ≡ limit
    → 0 < limit
    → IsInOrder m.clawback_day (q ∷ qs)
    → ((m' : Merchant)
        → m'.clawback_daily_cap_raw ≡ limit
        → IsInOrder m'.clawback_day qs
        → IsHistory limit (counter m') (taken m' qs))
    → IsHistory limit (counter m) (note q r (taken (settle m r) qs))
unfolding clawed_before
IsHistory-step limit m q qs (ok r) e cap pos o rest =
    let b = IsBooked-today m q e in
    booked o.0 b.rolled b.total (omega (arith, b.capped, cap))
      (rest r.merchant (b.cap_kept ∙ cap) (rw b.rolled o.1))
IsHistory-step limit m q qs (err _) e cap pos o rest = rest m cap (IsInOrder-weaken _ _ qs o.0 o.1)
IsHistory-step limit m q qs constraint e cap pos o rest =
    rest m cap (IsInOrder-weaken _ _ qs o.0 o.1)
IsHistory-step limit m q qs panic e cap pos o rest = rest m cap (IsInOrder-weaken _ _ qs o.0 o.1)

taken-IsHistory :
    (limit : ℕ) (m : Merchant) (qs : List Request)
    → m.clawback_daily_cap_raw ≡ limit
    → 0 < limit
    → IsInOrder m.clawback_day qs
    → IsHistory limit (counter m) (taken m qs)
unfolding taken
taken-IsHistory limit m [] cap pos o = nothing
taken-IsHistory limit m (q ∷ qs) cap pos o =
    IsHistory-step limit m q qs (attempt m q) refl cap pos o
      (λ m' cap' o'. taken-IsHistory limit m' qs cap' pos o')

-- Whatever clawbacks are requested at a merchant with a daily cap, in the order of their days and for
-- any customers: if the counter starts within the cap, then on no day is more taken back than the
-- cap, together with what the counter already held for that day. A refused request takes nothing.
pub clawback_capped :
    (d : ℕ) (m : Merchant) (qs : List Request)
    → 0 < m.clawback_daily_cap_raw
    → clawed_before m d ≤ m.clawback_daily_cap_raw
    → IsInOrder m.clawback_day qs
    → clawed_before m d + booked_on d (taken m qs) ≤ m.clawback_daily_cap_raw
unfolding clawed_before
clawback_capped d m qs pos low o =
    daily_total d (taken-IsHistory m.clawback_daily_cap_raw m qs refl pos o) low

-- A clawback goes through only for the merchant's owner, with a reason, and for no more than the
-- customer holds.
pub clawback_owner :
    (transfer : ℕ → Result VestaError (Unit {0})) (a : ClawbackPoints) (now : ℤ) (amount reason : ℕ)
    {r : Clawed}
    → handle_clawback transfer a now amount reason ≡ ok r
    → (a.merchant_authority ≡ a.merchant.authority)
      × (reason ≢ 0)
      × (r.balance_after + amount ≡ a.customer_ata.amount)
unfolding handle_clawback book_clawback touch_profile
clawback_owner transfer a now amount reason h = ground arith
