-- ===== src/Base/Daily.antt =====
-- A counter that starts anew every day, and the amounts that are booked on it: what the daily limits of
-- the programs have in common.
use Prim.Native.Nat.{ℕ, ◌+◌, ◌≤◌, ◌<◌}
use mathlib.Core.Path.{◌≡◌}
use mathlib.Core.List.{List, [], ◌∷◌}
use native.Mathlib.Omega.{arith}
use vesta_core.Base.Tests.{◌==◌, if◌then◌else◌}

pub record Counter : Type 0 where
  pub day : ℕ
  pub used : ℕ

-- What the counter holds for a day.
abbrev pub used_on : Counter → ℕ → ℕ
used_on c d = if c.day == d then c.used else 0

-- A booking: its day and its amount.
abbrev pub Booking : Type 0
Booking = ℕ × ℕ

abbrev pub booked_on : ℕ → List Booking → ℕ
booked_on d [] = 0
booked_on d ((day, n) ∷ bs) = (if day == d then n else 0) + booked_on d bs

-- Bookings in the order of their days, each within the limit with what its day already holds.
pub data IsHistory (limit : ℕ) : Counter → List Booking → Type 0 where
  nothing : {c : Counter} → IsHistory limit c []
  booked :
      {c c' : Counter} {day n : ℕ} {bs : List Booking}
      → c.day ≤ day
      → c'.day ≡ day
      → c'.used ≡ used_on c day + n
      → c'.used ≤ limit
      → IsHistory limit c' bs
      → IsHistory limit c ((day, n) ∷ bs)

-- Nothing is booked on a day before the counter's.
none_before :
    {limit : ℕ} {c : Counter} {bs : List Booking} (d : ℕ)
    → IsHistory limit c bs
    → d < c.day
    → booked_on d bs ≡ 0
none_before d nothing lt = omega arith
none_before d (booked le same total low rest) lt =
    ground (arith, none_before d rest (omega (arith, same)))

daily_step :
    (limit d day n more : ℕ) (c c' : Counter)
    → c.day ≤ day
    → c'.day ≡ day
    → c'.used ≡ used_on c day + n
    → used_on c d ≤ limit
    → used_on c' d + more ≤ limit
    → (d < day → more ≡ 0)
    → used_on c d + ((if day == d then n else 0) + more) ≤ limit
daily_step limit d day n more c c' le same total low later none = ground arith

rolled_within : (limit d : ℕ) (c : Counter) → c.used ≤ limit → used_on c d ≤ limit
rolled_within limit d c h = ground arith

-- On no day is more booked than the limit, together with what the counter held for it.
pub daily_total :
    {limit : ℕ} {c : Counter} {bs : List Booking} (d : ℕ)
    → IsHistory limit c bs
    → used_on c d ≤ limit
    → used_on c d + booked_on d bs ≤ limit
daily_total d nothing low = omega arith
daily_total d (booked {c} {c'} {day} {n} {bs} le same total fits rest) low =
    daily_step _ d day n (booked_on d bs) c c' le same total low
      (daily_total d rest (rolled_within _ d c' fits))
      (λ lt. none_before d rest (omega (arith, same)))
