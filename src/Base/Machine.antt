-- ===== src/Base/Machine.antt =====
-- Rust's checked and saturating arithmetic. A value of a w-bit type is a native number, and the
-- largest value of its type is an argument.
use Prim.Native.Nat.{ℕ, suc, ◌+◌, ◌-◌, ◌*◌, ◌/◌, ◌^◌}
use mathlib.Core.Bool.{Bool, ◌&&◌}
use mathlib.Core.Option.{Option, none, some}
use vesta_core.Base.Tests.{leb, ◌==◌, if◌then◌else◌}
use vesta_core.Base.Int.{ℤ, pos, negsuc, ◌+ℤ◌, ◌-ℤ◌, leb_ℤ}

abbrev pub u8_max : ℕ
u8_max = 2 ^ 8 - 1

abbrev pub u16_max : ℕ
u16_max = 2 ^ 16 - 1

abbrev pub u32_max : ℕ
u32_max = 2 ^ 32 - 1

abbrev pub u64_max : ℕ
u64_max = 2 ^ 64 - 1

abbrev pub u128_max : ℕ
u128_max = 2 ^ 128 - 1

abbrev pub i64_max : ℕ
i64_max = 2 ^ 63 - 1

-- `uN::try_from(n)`
abbrev pub try_from : ℕ → ℕ → Option ℕ
try_from top n = if leb n top then some n else none

abbrev pub checked_add : ℕ → ℕ → ℕ → Option ℕ
checked_add top a b = if leb (a + b) top then some (a + b) else none

abbrev pub checked_mul : ℕ → ℕ → ℕ → Option ℕ
checked_mul top a b = if leb (a * b) top then some (a * b) else none

abbrev pub checked_sub : ℕ → ℕ → Option ℕ
checked_sub a b = if leb b a then some (a - b) else none

-- Division of unsigned integers fails only by a zero divisor.
abbrev pub checked_div : ℕ → ℕ → Option ℕ
checked_div a b = if b == 0 then none else some (a / b)

abbrev pub saturating_add : ℕ → ℕ → ℕ → ℕ
saturating_add top a b = if leb (a + b) top then a + b else top

-- Subtraction on the native numbers saturates at zero too.
abbrev pub saturating_sub : ℕ → ℕ → ℕ
saturating_sub a b = a - b

-- The range of `i64`.
abbrev pub in_i64 : ℤ → Bool
in_i64 a = leb_ℤ (negsuc i64_max) a && leb_ℤ a (pos i64_max)

abbrev pub checked_add_i64 : ℤ → ℤ → Option ℤ
checked_add_i64 a b = if in_i64 (a +ℤ b) then some (a +ℤ b) else none

abbrev pub checked_sub_i64 : ℤ → ℤ → Option ℤ
checked_sub_i64 a b = if in_i64 (a -ℤ b) then some (a -ℤ b) else none

abbrev pub saturating_sub_i64 : ℤ → ℤ → ℤ
saturating_sub_i64 a b =
    if leb_ℤ (a -ℤ b) (pos i64_max)
    then (if leb_ℤ (negsuc i64_max) (a -ℤ b) then a -ℤ b else negsuc i64_max)
    else pos i64_max

-- `Option::and_then`
abbrev pub and_then {ℓ κ} : {A : Type ℓ} {B : Type κ} → Option A → (A → Option B) → Option B
and_then none f = none
and_then (some a) f = f a

-- `u32::try_from(now / SECONDS_PER_DAY)`: Rust's division rounds towards zero, so the day before
-- 1970 is day 0 too, and any earlier one does not fit.
unfoldable pub unix_day : ℤ → Option ℕ
unix_day (pos n) = try_from u32_max (n / 86400)
unix_day (negsuc n) = if suc n / 86400 == 0 then some 0 else none
