-- ===== src/Koinon/Swap/Format.antt =====
-- The text of a UI amount (`format_ui_amount` of programs/vesta-core/src/util.rs).
use vesta_core.Base.{
  ℕ, zero, suc, ◌+◌, ◌-◌, ◌*◌, ◌/◌, ◌%◌, ◌^◌, ◌≤◌, ◌<◌, ◌≡◌, refl, ap, ◌∙◌, [], ◌∷◌, ◌++◌, ltb, leb,
  Bool, true, false, ◌&&◌, Option, none, some, ◌==◌, if◌then◌else◌, inl, inr, Bool-cases, arith,
  u64_max,
}
use mathlib.Core.List.{append_assoc}
use vesta_core.Vesta.Constants.{Text}
use vesta_core.Koinon.Swap.{decimal, format_ui_amount}

-- A decimal numeral: digits, and a point with digits after it where there is one. Its value is the number
-- that all its digits spell, and how many of them stand after the point.
is_digit : ℕ → Bool
is_digit c = leb 48 c && leb c 57

read_places : ℕ → ℕ → Text → Option (ℕ × ℕ)
unfolding is_digit
read_places acc places [] = some (acc, places)
read_places acc places (c ∷ cs) =
    let rest = read_places (acc * 10 + (c - 48)) (places + 1) cs in
    if is_digit c then rest else none

read_whole : ℕ → Text → Option (ℕ × ℕ)
unfolding is_digit
read_whole acc [] = some (acc, 0)
read_whole acc (c ∷ cs) =
    let rest = read_whole (acc * 10 + (c - 48)) cs in
    if c == 46 then read_places acc 0 cs else if is_digit c then rest else none

pub read_numeral : Text → Option (ℕ × ℕ)
unfolding read_whole
read_numeral text = read_whole 0 text

digit_lem :
    (d : ℕ) → d < 10 → (((48 + d) == 46) ≡ false) × (is_digit (48 + d) ≡ true) × (48 + d - 48 ≡ d)
unfolding is_digit
digit_lem d lt = ground arith

read_digit :
    (acc d : ℕ) (cs : Text) → d < 10 → read_whole acc ((48 + d) ∷ cs) ≡ read_whole (acc * 10 + d) cs
unfolding read_whole
read_digit acc d cs lt = let (other, digit, value) = digit_lem d lt in rw (other, digit, value) refl

-- The last two digits, past the point.
read_cents :
    (acc a b : ℕ)
    → a < 10
    → b < 10
    → read_whole acc (46 ∷ (48 + a) ∷ (48 + b) ∷ []) ≡ some ((acc * 10 + a) * 10 + b, 2)
unfolding read_whole read_places is_digit
read_cents acc a b lt lt' = ground arith

tenth_lt : (n p : ℕ) → n < 10 * p → n / 10 < p
tenth_lt n p lt = omega arith

pow_suc : (fuel : ℕ) → 10 ^ suc fuel ≡ 10 * 10 ^ fuel
pow_suc fuel = grind arith

-- Where there is fuel for the digits of a number, they are read as it.
decimal_value :
    (fuel n : ℕ) (cs : Text) → n < 10 ^ fuel → read_whole 0 (decimal fuel n ++ cs) ≡ read_whole n cs
unfolding decimal
decimal_value zero n cs lt = let zeroth : 0 ≡ n = omega arith in ap (λ w. read_whole w cs) zeroth
decimal_value (suc fuel) n cs lt = elim (Bool-cases (ltb n 10)) [
  | inl low ↦ rw (low) (read_digit 0 n cs (ground arith) ∙ ap (λ w. read_whole w cs) (omega arith))
  | inr high ↦
      rw (high, append_assoc (decimal fuel (n / 10)) ((48 + n % 10) ∷ []) cs)
        (decimal_value fuel (n / 10) ((48 + n % 10) ∷ cs)
            (tenth_lt n (10 ^ fuel) (omega (arith, pow_suc fuel)))
          ∙ read_digit (n / 10) (n % 10) cs (omega arith)
          ∙ ap (λ w. read_whole w cs) (omega arith))
]

-- The text that the conversion is asked for is a decimal numeral with two places, whose digits spell the
-- UI amount, for every one that fits a `u64`.
pub format_ui_amount-read :
    (ui : ℕ) → ui ≤ u64_max → read_numeral (format_ui_amount ui) ≡ some (ui, 2)
unfolding format_ui_amount read_numeral
format_ui_amount-read ui fits =
    decimal_value 20 (ui / 100) (46 ∷ (48 + ui % 100 / 10) ∷ (48 + ui % 10) ∷ []) (omega arith)
    ∙ read_cents (ui / 100) (ui % 100 / 10) (ui % 10) (omega arith) (omega arith)
    ∙ ap (λ w. some (w, 2)) (omega arith)
