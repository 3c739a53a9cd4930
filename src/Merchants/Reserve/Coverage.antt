-- ===== src/Merchants/Reserve/Coverage.antt =====
-- What a withdrawal leaves in a merchant's reserve (programs/vesta-core/src/instructions/merchant_reserve.rs).
mod Tests
use vesta_core.Base.{
  ℕ, ◌+◌, ◌*◌, ◌/◌, ◌≤◌, ◌<◌, ◌≡◌, refl, sym, Bool, true, some, Option, ℤ, leb, ltb, leb→le, ◌==◌,
  arith, Result, ok, ◌>>=◌, ◌>>◌, require, ok_or, none, inl, inr, Option-cases, eq→==, le→leb,
}
use vesta_core.Vesta.Constants.{Pubkey}
use vesta_core.Vesta.Error.{VestaError}
use vesta_core.Vesta.Merchant.{Merchant}
use vesta_core.Vesta.Assurance.{MerchantReserve, required_reserve}
use vesta_core.Merchants.{owner_only}
use vesta_core.Merchants.Reserve.{
  TokenAccount, Mint, Transfer, Attested, handle_withdraw_reserve, handle_attest_reserve,
}

required_inv :
    (r : MerchantReserve) (supply : ℕ) {n : ℕ}
    → required_reserve r supply ≡ some n
    → n ≡ supply * r.unit_value * r.target_ratio_bps / 10_000
unfolding required_reserve
required_inv r supply h = ground arith

required_bound :
    (r : MerchantReserve) (supply n : ℕ)
    → n ≡ supply * r.unit_value * r.target_ratio_bps / 10_000
    → supply * r.unit_value * r.target_ratio_bps < (n + 1) * 10_000
required_bound r supply n e = omega (arith, e)

withdraw_inv :
    (transfer : Transfer) (m : Merchant) (r : MerchantReserve) (signer : Pubkey) (point_mint : Mint)
    (backing_mint : Pubkey) (reserve_ata : TokenAccount) (amount required : ℕ) {balance : ℕ}
    → required_reserve r point_mint.supply ≡ some required
    → handle_withdraw_reserve transfer m r signer point_mint backing_mint reserve_ata amount
      ≡ ok balance
    → (m.point_mint ≡ point_mint.key) × (r.reserve_ata ≡ reserve_ata.key) × (required ≤ balance)
unfolding handle_withdraw_reserve
withdraw_inv transfer m r signer point_mint backing_mint reserve_ata amount required e h =
    ground arith

withdraw_overflow :
    (transfer : Transfer) (m : Merchant) (r : MerchantReserve) (signer : Pubkey) (point_mint : Mint)
    (backing_mint : Pubkey) (reserve_ata : TokenAccount) (amount : ℕ) {balance : ℕ}
    → required_reserve r point_mint.supply ≡ none
    → handle_withdraw_reserve transfer m r signer point_mint backing_mint reserve_ata amount
      ≡ ok balance
    → ⊥
unfolding handle_withdraw_reserve
withdraw_overflow transfer m r signer point_mint backing_mint reserve_ata amount e h = ground arith

attest_ok :
    (m : Merchant) (merchant_key : Pubkey) (r : MerchantReserve) (point_mint : Mint)
    (reserve_ata : TokenAccount) (now : ℤ) (required : ℕ)
    → required_reserve r point_mint.supply ≡ some required
    → m.point_mint ≡ point_mint.key
    → r.reserve_ata ≡ reserve_ata.key
    → handle_attest_reserve m merchant_key r point_mint reserve_ata now
      ≡ ok (record {
        merchant = merchant_key;
        outstanding_raw = point_mint.supply;
        reserve_stable = reserve_ata.amount;
        required_stable = required;
        solvent = leb required reserve_ata.amount;
        ts = now;
      })
unfolding handle_attest_reserve
attest_ok m merchant_key r point_mint reserve_ata now required e c1 c2 =
    rw (eq→== _ _ c1, eq→== _ _ c2, e) refl

-- A withdrawal that goes through leaves in the reserve what backs the point mint's raw supply at the
-- reserve's unit value and ratio, rounded down to a unit of the backing mint; anyone's attestation of
-- that balance at that supply then succeeds and says that the reserve is solvent.
pub withdraw_covers :
    (transfer : Transfer) (m : Merchant) (r : MerchantReserve) (signer merchant_key : Pubkey)
    (point_mint : Mint) (backing_mint : Pubkey) (reserve_ata : TokenAccount) (amount : ℕ) (now : ℤ)
    {balance : ℕ}
    → handle_withdraw_reserve transfer m r signer point_mint backing_mint reserve_ata amount
      ≡ ok balance
    → (point_mint.supply * r.unit_value * r.target_ratio_bps < (balance + 1) * 10_000)
      × ((e : Attested) × (handle_attest_reserve m merchant_key r point_mint
              (record reserve_ata { amount = balance })
              now
            ≡ ok e)
          × (e.solvent ≡ true))
withdraw_covers transfer m r signer merchant_key point_mint backing_mint reserve_ata amount now
      {balance} h =
    elim (Option-cases (required_reserve r point_mint.supply)) [
      | inl e ↦
          absurd
            (withdraw_overflow transfer m r signer point_mint backing_mint reserve_ata amount e h)
      | inr (required, e) ↦
          let (c1, c2, low) =
            withdraw_inv transfer m r signer point_mint backing_mint reserve_ata amount required e
              h in
          let bound =
            required_bound r point_mint.supply required (required_inv r point_mint.supply e) in
          (
            omega (arith, bound, low),
            (
              _,
              attest_ok m merchant_key r point_mint _ now required e c1 c2,
              le→leb required balance low,
            ),
          )
    ]
