-- ===== src/Argus/State.antt =====
-- The guard's accounts and constants (programs/argus/src/state.rs, constants.rs).
use vesta_core.Base.{ℕ, Bool, not, Option, ℤ, bit_and, ◌==◌}

abbrev pub Pubkey : Type 0
Pubkey = ℕ

abbrev pub default_key : Pubkey
default_key = 0

-- A 32-byte hash; the all-zero one means "none".
abbrev pub Hash : Type 0
Hash = ℕ

abbrev pub no_hash : Hash
no_hash = 0

abbrev pub state_version : ℕ
state_version = 1

abbrev pub predicate_attestation_bit : ℕ
predicate_attestation_bit = 1

abbrev pub degrade_normal : ℕ
degrade_normal = 0

pub record GuardConfig : Type 0 where
  pub version : ℕ
  pub mint : Pubkey
  pub authority : Pubkey
  pub pending_authority : Option Pubkey
  pub treasury : Pubkey
  pub aegis_program : Pubkey
  pub attestation_issuer : Pubkey
  pub policy : Pubkey
  pub policy_epoch : ℕ
  pub screening_epoch : ℕ
  pub paused : Bool
  pub flags : ℕ
  pub daily_gift_cap : ℕ
  pub per_tx_cap : ℕ
  pub max_wallet_balance : ℕ
  pub transfers_per_day_cap : ℕ
  pub cooldown_secs : ℕ
  pub attestation_schema : ℕ
  pub capability_ttl_secs : ℤ
  pub governed : Bool
  pub active_policy_hash : Hash
  pub degrade_mode : ℕ
  pub bump : ℕ

-- `flags & FLAG != 0`
abbrev pub has_flag : ℕ → ℕ → Bool
has_flag flags flag = not (bit_and flags flag == 0)

pub record WalletPolicyState : Type 0 where
  pub day : ℕ
  pub sent_today : ℕ
  pub transfers_today : ℕ
  pub last_transfer_at : ℤ
  pub bump : ℕ

pub record EligibilityCapability : Type 0 where
  pub version : ℕ
  pub mint : Pubkey
  pub subject : Pubkey
  pub verdicts : ℕ
  pub aegis_program : Pubkey
  pub policy_epoch : ℕ
  pub screening_epoch : ℕ
  pub jurisdiction : ℕ
  pub tier : ℕ
  pub issued_at : ℤ
  pub expires_at : ℤ
  pub bump : ℕ
