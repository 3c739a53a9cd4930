-- ===== src/Merchants/Reserve.antt =====
-- The reserve that backs a merchant's points (programs/vesta-core/src/instructions/merchant_reserve.rs).
-- The token program's transfer is a parameter: the balance that the reserve's account has when it is
-- read again after it.
pub mod Coverage
use vesta_core.Base.{
  ℕ, Bool, true, false, ◌&&◌, Option, none, some, ℤ, leb, ltb, ◌==◌, if◌then◌else◌, Result, ok,
  ◌>>=◌, ◌>>◌, require, ok_or,
}
use vesta_core.Vesta.Constants.{Pubkey, state_version}
use vesta_core.Vesta.Error.{
  VestaError, mint_mismatch, reserve_mint_mismatch, invalid_amount, invalid_reserve_params,
  overflow, reserve_coverage_breach,
}
use vesta_core.Vesta.Merchant.{Merchant}
use vesta_core.Vesta.Assurance.{MerchantReserve, required_reserve}
use vesta_core.Merchants.{owner_only}

-- A token account and a mint, of which the handlers read an amount.
pub record TokenAccount : Type 0 where
  pub key : Pubkey
  pub amount : ℕ

pub record Mint : Type 0 where
  pub key : Pubkey
  pub supply : ℕ

abbrev pub max_ratio_bps : ℕ
max_ratio_bps = 65_535

pub handle_open_reserve :
    Merchant → Pubkey → Pubkey → Pubkey → Pubkey → ℕ → ℕ → ℕ → Result VestaError MerchantReserve
handle_open_reserve m merchant_key signer backing_mint reserve_ata bump unit_value
      target_ratio_bps =
    do
      owner_only m signer
      require (ltb 0 unit_value) invalid_reserve_params
      require (ltb 0 target_ratio_bps && leb target_ratio_bps max_ratio_bps) invalid_reserve_params
      ok (record {
        version = state_version;
        merchant = merchant_key;
        backing_mint = backing_mint;
        reserve_ata = reserve_ata;
        unit_value = unit_value;
        target_ratio_bps = target_ratio_bps;
        bump = bump;
      })

-- The transfer of an amount into or out of the reserve's account.
abbrev pub Transfer : Type 0
Transfer = ℕ → Result VestaError ℕ

-- The result is the balance that the event reports.
pub handle_fund_reserve :
    Transfer → Merchant → MerchantReserve → Pubkey → Pubkey → TokenAccount → ℕ → Result VestaError ℕ
handle_fund_reserve transfer m r signer backing_mint reserve_ata amount = do
  owner_only m signer
  require (r.backing_mint == backing_mint) reserve_mint_mismatch
  require (r.reserve_ata == reserve_ata.key) reserve_mint_mismatch
  require (ltb 0 amount) invalid_amount
  transfer amount

pub handle_withdraw_reserve :
    Transfer
    → Merchant
    → MerchantReserve
    → Pubkey
    → Mint
    → Pubkey
    → TokenAccount
    → ℕ
    → Result VestaError ℕ
handle_withdraw_reserve transfer m r signer point_mint backing_mint reserve_ata amount = do
  owner_only m signer
  require (m.point_mint == point_mint.key) mint_mismatch
  require (r.backing_mint == backing_mint) reserve_mint_mismatch
  require (r.reserve_ata == reserve_ata.key) reserve_mint_mismatch
  require (ltb 0 amount) invalid_amount
  balance ← transfer amount
  required ← ok_or (required_reserve r point_mint.supply) overflow
  require (leb required balance) reserve_coverage_breach
  ok balance

-- `ReserveAttested`
pub record Attested : Type 0 where
  pub merchant : Pubkey
  pub outstanding_raw : ℕ
  pub reserve_stable : ℕ
  pub required_stable : ℕ
  pub solvent : Bool
  pub ts : ℤ

pub handle_attest_reserve :
    Merchant → Pubkey → MerchantReserve → Mint → TokenAccount → ℤ → Result VestaError Attested
handle_attest_reserve m merchant_key r point_mint reserve_ata now = do
  require (m.point_mint == point_mint.key) mint_mismatch
  require (r.reserve_ata == reserve_ata.key) reserve_mint_mismatch
  required ← ok_or (required_reserve r point_mint.supply) overflow
  ok (record {
    merchant = merchant_key;
    outstanding_raw = point_mint.supply;
    reserve_stable = reserve_ata.amount;
    required_stable = required;
    solvent = leb required reserve_ata.amount;
    ts = now;
  })
