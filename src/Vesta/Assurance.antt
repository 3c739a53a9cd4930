-- ===== src/Vesta/Assurance.antt =====
-- A merchant's accreditation, its reserve and its statements (programs/vesta-core/src/state.rs).
use vesta_core.Base.{ℕ, Option, ℤ, and_then, checked_mul, checked_div, try_from, u64_max, u128_max}
use vesta_core.Vesta.Constants.{Pubkey, bps_denominator}

pub record MerchantTrust : Type 0 where
  pub version : ℕ
  pub merchant : Pubkey
  pub accreditation_root : Pubkey
  pub subject_issuer : Pubkey
  pub required_schema : ℕ
  pub aegis_program : Pubkey
  pub degrade_target : ℕ
  pub grace_secs : ℤ
  pub failing_since : ℤ
  pub last_verified_at : ℤ
  pub tier : ℕ
  pub jurisdiction : ℕ
  pub bump : ℕ

pub record MerchantReserve : Type 0 where
  pub version : ℕ
  pub merchant : Pubkey
  pub backing_mint : Pubkey
  pub reserve_ata : Pubkey
  pub unit_value : ℕ
  pub target_ratio_bps : ℕ
  pub bump : ℕ

-- In 128 bits, and `none` if the result does not fit in 64.
unfoldable pub required_reserve : MerchantReserve → ℕ → Option ℕ
required_reserve r supply_raw =
    and_then
      (and_then (checked_mul u128_max supply_raw r.unit_value) (λ v.
        and_then (checked_mul u128_max v r.target_ratio_bps) (λ w. checked_div w bps_denominator)))
      (λ v. try_from u64_max v)

pub record MerchantStatement : Type 0 where
  pub version : ℕ
  pub merchant : Pubkey
  pub period : ℕ
  pub merkle_root : ℕ
  pub decision_count : ℕ
  pub reporter : Pubkey
  pub anchored_at : ℤ
  pub bump : ℕ
