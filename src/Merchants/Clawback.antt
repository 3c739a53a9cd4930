-- ===== src/Merchants/Clawback.antt =====
-- Taking points back from a customer (programs/vesta-core/src/instructions/clawback.rs). The hooked
-- transfer of the token program is a parameter: it ends well or fails the transaction.
pub mod Cap
use vesta_core.Base.{
  ℕ, ◌+◌, ◌-◌, Bool, true, false, not, Option, none, some, ℤ, leb, ltb, ◌==◌, if◌then◌else◌,
  checked_add, saturating_add, saturating_sub, u32_max, u64_max, u128_max, unix_day, Result, ok,
  ◌>>=◌, ◌>>◌, require, ok_or,
}
use vesta_core.Vesta.Constants.{Pubkey, default_key}
use vesta_core.Vesta.Error.{
  VestaError, protocol_paused, unauthorized, invalid_amount, reason_required,
  clawback_exceeds_balance, clawback_cap_exceeded, overflow, treasury_mismatch, mint_mismatch,
}
use vesta_core.Vesta.Merchant.{Config, Merchant}
use vesta_core.Vesta.Customer.{CustomerProfile}

pub record CustomerAccount : Type 0 where
  pub mint : Pubkey
  pub owner : Pubkey
  pub amount : ℕ

-- The accounts of the instruction; a new profile is zero.
pub record ClawbackPoints : Type 0 where
  pub merchant_authority : Pubkey
  pub merchant_key : Pubkey
  pub merchant : Merchant
  pub customer : Pubkey
  pub customer_profile : CustomerProfile
  pub profile_bump : ℕ
  pub customer_ata : CustomerAccount
  pub treasury : Pubkey
  pub point_mint : Pubkey
  pub config : Config

-- The daily counter, rolled over to `day`.
unfoldable pub clawed_before : Merchant → ℕ → ℕ
clawed_before m day = if m.clawback_day == day then m.clawed_today else 0

-- The counter with the amount on it, within the cap if there is one.
pub book_clawback : Merchant → ℕ → ℕ → Result VestaError Merchant
unfolding clawed_before
book_clawback m day amount_raw = do
  clawed ← ok_or (checked_add u64_max (clawed_before m day) amount_raw) overflow
  require (if ltb 0 m.clawback_daily_cap_raw then leb clawed m.clawback_daily_cap_raw else true)
      clawback_cap_exceeded
  ok (record m { clawback_day = day; clawed_today = clawed })

-- The customer's profile, with its identity when it is new, and the merchant that counts the customer.
pub touch_profile : ClawbackPoints → Merchant → ℕ → CustomerProfile × Merchant
touch_profile a m amount_raw =
    let first_touch = a.customer_profile.wallet == default_key in
    let p =
      if first_touch
      then record a.customer_profile {
        wallet = a.customer;
        merchant = a.merchant_key;
        bump = a.profile_bump;
      }
      else a.customer_profile in
    (
      record p {
        lifetime_clawed_back = saturating_add u64_max p.lifetime_clawed_back amount_raw;
        clawback_count = saturating_add u32_max p.clawback_count 1;
      },
      (if first_touch
          then record m { customer_count = saturating_add u64_max m.customer_count 1 }
          else m),
    )

pub record Clawed : Type 0 where
  pub merchant : Merchant
  pub profile : CustomerProfile
  pub balance_after : ℕ

pub handle_clawback :
    (ℕ → Result VestaError (Unit {0})) → ClawbackPoints → ℤ → ℕ → ℕ → Result VestaError Clawed
unfolding book_clawback touch_profile
handle_clawback transfer a now amount_raw reason_code = do
  require (a.merchant.treasury == a.treasury) treasury_mismatch
  require (a.merchant.point_mint == a.point_mint) mint_mismatch
  require (a.customer_ata.mint == a.point_mint) mint_mismatch
  require (a.customer_ata.owner == a.customer) unauthorized
  require (not a.config.paused) protocol_paused
  require (ltb 0 amount_raw) invalid_amount
  require (not (reason_code == 0)) reason_required
  require (a.merchant_authority == a.merchant.authority) unauthorized
  require (leb amount_raw a.customer_ata.amount) clawback_exceeds_balance
  day ← ok_or (unix_day now) overflow
  booked ← book_clawback a.merchant day amount_raw
  transfer amount_raw
  let (profile, m) = touch_profile a booked amount_raw
  ok (record {
    merchant = record m {
      lifetime_clawed_back = saturating_add u128_max m.lifetime_clawed_back amount_raw;
      clawback_count = saturating_add u64_max m.clawback_count 1;
    };
    profile = profile;
    balance_after = saturating_sub a.customer_ata.amount amount_raw;
  })
