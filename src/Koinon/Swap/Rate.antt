-- ===== src/Koinon/Swap/Rate.antt =====
-- The cross rate of a swap (`handle_swap_points` of programs/vesta-core/src/instructions/koinon.rs).
use mathlib.Core.Path.{subst}
use vesta_core.Base.{
  ℕ, suc, ◌-◌, ◌*◌, ◌/◌, ◌≤◌, ◌<◌, ◌≡◌, arith, ok, ok_or, and_then, checked_mul, checked_div,
  checked_sub, try_from, u128_max, u64_max, >>=-ok,
}
use vesta_core.Vesta.Error.{VestaError, overflow}
use vesta_core.Koinon.Swap.{quote_out}

mul_div_inv :
    (a b c : ℕ) {q : ℕ}
    → ok_or {E = VestaError} (and_then (checked_mul u128_max a b) (λ v. checked_div v c)) overflow
      ≡ ok q
    → (0 < c) × (q ≡ a * b / c)
mul_div_inv a b c h = ground arith

mul_div_le : (a c : ℕ) → 0 < c → a / c * c ≤ a
mul_div_le a c pos = grind arith

kept_inv :
    (fee : ℕ) {k : ℕ}
    → ok_or {E = VestaError} (checked_sub 10_000 fee) overflow ≡ ok k
    → (fee ≤ 10_000) × (k ≡ 10_000 - fee)
kept_inv fee h = ground arith

fits_inv : (n : ℕ) {k : ℕ} → ok_or {E = VestaError} (try_from u64_max n) overflow ≡ ok k → k ≡ n
fits_inv n h = ground arith

scale_le : (a b k : ℕ) → a ≤ b → a * k ≤ b * k
scale_le a b k le = grind arith

scale_right : (b k l : ℕ) → k ≤ l → b * k ≤ b * l
scale_right b k l le = grind arith

quote_le :
    (c n k ui rate_a rate_b out : ℕ)
    → 0 < rate_b
    → c ≡ ui * rate_a / rate_b
    → n ≡ c * k / 10_000
    → out ≡ n
    → out * 10_000 * rate_b ≤ ui * rate_a * k
quote_le c n k ui rate_a rate_b out pos c_is n_is out_is =
    let crossed : c * rate_b ≤ ui * rate_a = rw (c_is) (mul_div_le (ui * rate_a) rate_b pos) in
    let feed : out * 10_000 ≤ c * k = rw (out_is, n_is) (mul_div_le (c * k) 10_000 (omega arith)) in
    let p = scale_le (c * rate_b) (ui * rate_a) k crossed in
    let q = scale_le (out * 10_000) (c * k) rate_b feed in grind arith

over_inv :
    (n : ℕ) {k : ℕ} → ok_or {E = VestaError} (try_from u64_max n) overflow ≡ ok k → k ≤ u64_max
over_inv n h = ground arith

pub quote_fits :
    (rate_a rate_b fee_bps ui : ℕ) {out : ℕ}
    → quote_out rate_a rate_b fee_bps ui ≡ ok out
    → out ≤ u64_max
unfolding quote_out
quote_fits rate_a rate_b fee_bps ui {out} h =
    let (c, _, h0) =
      >>=-ok
        (ok_or (and_then (checked_mul u128_max ui rate_a) (λ v. checked_div v rate_b)) overflow) _
        h in
    let (k, _, h1) = >>=-ok (ok_or (checked_sub 10_000 fee_bps) overflow) _ h0 in
    let (n, _, h2) =
      >>=-ok (ok_or (and_then (checked_mul u128_max c k) (λ v. checked_div v 10_000)) overflow) _
        h1 in
    over_inv n h2

-- A quote is never more than the exact cross rate less the alliance's fee, and it is given only for
-- a rate of B above zero and a fee of at most the whole.
pub quote_spread :
    (rate_a rate_b fee_bps ui : ℕ) {out : ℕ}
    → quote_out rate_a rate_b fee_bps ui ≡ ok out
    → (0 < rate_b) × (fee_bps ≤ 10_000) × (out * 10_000 * rate_b ≤ ui * rate_a * (10_000 - fee_bps))
unfolding quote_out
quote_spread rate_a rate_b fee_bps ui {out} h =
    let (c, e0, h0) =
      >>=-ok
        (ok_or (and_then (checked_mul u128_max ui rate_a) (λ v. checked_div v rate_b)) overflow) _
        h in
    let (k, e1, h1) = >>=-ok (ok_or (checked_sub 10_000 fee_bps) overflow) _ h0 in
    let (n, e2, h2) =
      >>=-ok (ok_or (and_then (checked_mul u128_max c k) (λ v. checked_div v 10_000)) overflow) _
        h1 in
    let (positive, c_is) = mul_div_inv ui rate_a rate_b e0 in
    let (fee_le, k_is) = kept_inv fee_bps e1 in
    let (_, n_is) = mul_div_inv c k 10_000 e2 in
    let out_is = fits_inv n h2 in
    (
      positive,
      fee_le,
      subst (λ w. out * 10_000 * rate_b ≤ ui * rate_a * w) k_is
          (quote_le c n k ui rate_a rate_b out positive c_is n_is out_is),
    )

unfee : (a b k : ℕ) → k ≤ 10_000 → a * 10_000 ≤ b * k → a ≤ b
unfee a b k le h = let top : b * k ≤ b * 10_000 = scale_right b k 10_000 le in omega arith

quote_le_rate :
    (rate_a rate_b fee_bps ui : ℕ) {out : ℕ}
    → quote_out rate_a rate_b fee_bps ui ≡ ok out
    → out * rate_b ≤ ui * rate_a
quote_le_rate rate_a rate_b fee_bps ui {out} h =
    let (_, _, spread) = quote_spread rate_a rate_b fee_bps ui h in
    unfee (out * rate_b) (ui * rate_a) (10_000 - fee_bps) (omega arith) (grind arith)

cancel_le : (a b c : ℕ) → 0 < c → a * c ≤ b * c → a ≤ b
cancel_le a b c pos h = grind (arith, scale_le (suc b) a c)

-- Two swaps, from A to B and back with what the first paid out, never return more UI value than was
-- put in, whatever the two rates and the two fees are.
pub round_trip_no_gain :
    (rate_a rate_b fee_bps fee_back ui : ℕ) {out back : ℕ}
    → quote_out rate_a rate_b fee_bps ui ≡ ok out
    → quote_out rate_b rate_a fee_back out ≡ ok back
    → back ≤ ui
round_trip_no_gain rate_a rate_b fee_bps fee_back ui {out} {back} h h' =
    cancel_le back ui rate_a (quote_spread rate_b rate_a fee_back out h').0 (
      omega (
        arith,
        quote_le_rate rate_b rate_a fee_back out h',
        quote_le_rate rate_a rate_b fee_bps ui h,
      ))
