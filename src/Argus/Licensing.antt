-- ===== src/Argus/Licensing.antt =====
-- The licenses of guarded mints, their fees, and the statements that a license allows
-- (programs/argus/src/instructions/licensing.rs, statements.rs, state.rs). The rent floor of the
-- treasury's account and the system program's transfer are parameters.
pub mod Renewal
use vesta_core.Base.{
  ℕ, ◌-◌, ◌*◌, Bool, true, false, ◌&&◌, ◌||◌, not, Option, none, some, ℤ, pos, eqb_ℤ, leb_ℤ, ltb_ℤ,
  ltb, leb, bit_and, checked_mul, checked_add, checked_sub, saturating_sub, checked_add_i64,
  u32_max, u64_max, i64_max, ◌==◌, if◌then◌else◌, Result, ok, ◌>>=◌, ◌>>◌, require, ok_or,
}
use vesta_core.Argus.Error.{
  GuardError, unauthorized, pending_authority_mismatch, insufficient_fee, overflow,
  invalid_entitlement, invalid_timelock, license_not_entitled,
}
use vesta_core.Argus.State.{Pubkey, Hash, state_version, GuardConfig}
use vesta_core.Argus.Policy.{is_pending}
use vesta_core.Argus.Roles.{Role, RoleRegistry, require_role}
use vesta_core.Argus.Trust.{guard_authority}

-- `entitlement`
abbrev pub statements : ℕ
statements = 2

abbrev pub all_entitlements : ℕ
all_entitlements = 15

-- 30 days
abbrev pub license_period_secs : ℕ
license_period_secs = 2_592_000

pub record ArgusProtocol : Type 0 where
  pub version : ℕ
  pub authority : Pubkey
  pub pending_authority : Option Pubkey
  pub license_fee_lamports : ℕ
  pub bump : ℕ

pub record LicenseState : Type 0 where
  pub version : ℕ
  pub mint : Pubkey
  pub tier : ℕ
  pub entitlements : ℕ
  pub expires_at : ℤ
  pub bump : ℕ

-- An expiry of 0 is none.
unfoldable pub grants : LicenseState → ℕ → ℤ → Bool
grants l entitlement now =
    (eqb_ℤ l.expires_at (pos 0) || ltb_ℤ now l.expires_at)
    && bit_and l.entitlements entitlement == entitlement

pub handle_initialize_protocol : Pubkey → ℕ → ℕ → ArgusProtocol
handle_initialize_protocol authority bump license_fee_lamports = record {
  version = state_version;
  authority = authority;
  pending_authority = none;
  license_fee_lamports = license_fee_lamports;
  bump = bump;
}

-- `has_one = authority @ Unauthorized`
pub protocol_authority : ArgusProtocol → Pubkey → Result GuardError (Unit {0})
protocol_authority p signer = require (p.authority == signer) unauthorized

pub handle_set_license_fee : ArgusProtocol → Pubkey → ℕ → Result GuardError ArgusProtocol
unfolding protocol_authority
handle_set_license_fee p signer fee = do
  protocol_authority p signer
  ok (record p { license_fee_lamports = fee })

pub handle_transfer_protocol_authority :
    ArgusProtocol → Pubkey → Pubkey → Result GuardError ArgusProtocol
unfolding protocol_authority
handle_transfer_protocol_authority p signer new_authority = do
  protocol_authority p signer
  ok (record p { pending_authority = some new_authority })

pub handle_accept_protocol_authority : ArgusProtocol → Pubkey → Result GuardError ArgusProtocol
handle_accept_protocol_authority p signer = do
  require (is_pending p.pending_authority signer) pending_authority_mismatch
  ok (record p { authority = signer; pending_authority = none })

-- The lamports of the treasury and of the recipient, another account, after the withdrawal.
pub handle_withdraw_fees : ArgusProtocol → Pubkey → ℕ → ℕ → ℕ → ℕ → Result GuardError (ℕ × ℕ)
unfolding protocol_authority
handle_withdraw_fees p signer rent_floor lamports recipient amount = do
  protocol_authority p signer
  require (leb amount (saturating_sub lamports rent_floor)) insufficient_fee
  left ← ok_or (checked_sub lamports amount) insufficient_fee
  received ← ok_or (checked_add u64_max recipient amount) overflow
  ok (left, received)

pub handle_set_license :
    ArgusProtocol → Pubkey → Pubkey → ℕ → ℕ → ℕ → ℤ → Result GuardError LicenseState
unfolding protocol_authority
handle_set_license p signer mint bump tier entitlements expires_at = do
  protocol_authority p signer
  require (bit_and entitlements (u32_max - all_entitlements) == 0) invalid_entitlement
  require (leb_ℤ (pos 0) expires_at) invalid_timelock
  ok (record {
    version = state_version;
    mint = mint;
    tier = tier;
    entitlements = entitlements;
    expires_at = expires_at;
    bump = bump;
  })

-- `a.max(b)`
abbrev pub max_ℤ : ℤ → ℤ → ℤ
max_ℤ a b = if ltb_ℤ a b then b else a

-- The license, and the fee that the authority paid.
pub handle_purchase_license :
    (ℕ → Result GuardError (Unit {0}))
    → GuardConfig
    → ArgusProtocol
    → LicenseState
    → Pubkey
    → ℕ
    → ℤ
    → Result GuardError (LicenseState × ℕ)
handle_purchase_license transfer c p license signer periods now = do
  guard_authority c signer
  require (ltb 0 periods) invalid_entitlement
  fee ← ok_or (checked_mul u64_max p.license_fee_lamports periods) overflow
  if ltb 0 fee then transfer fee else ok tt
  added ← ok_or (checked_mul i64_max license_period_secs periods) overflow
  expires_at ← ok_or (checked_add_i64 (max_ℤ license.expires_at now) (pos added)) overflow
  ok (record license { expires_at = expires_at }, fee)

pub record StatementCommitment : Type 0 where
  pub version : ℕ
  pub mint : Pubkey
  pub period : ℕ
  pub merkle_root : Hash
  pub decision_count : ℕ
  pub reporter : Pubkey
  pub anchored_at : ℤ
  pub bump : ℕ

-- `init`: the statement of a period is anchored once.
pub handle_anchor_statement :
    RoleRegistry
    → LicenseState
    → Pubkey
    → Pubkey
    → ℕ
    → ℕ
    → Hash
    → ℕ
    → ℤ
    → Result GuardError StatementCommitment
unfolding grants
handle_anchor_statement registry license mint reporter bump period merkle_root decision_count now =
    do
      require_role registry Role.reporter reporter
      require (grants license statements now) license_not_entitled
      ok (record {
        version = state_version;
        mint = mint;
        period = period;
        merkle_root = merkle_root;
        decision_count = decision_count;
        reporter = reporter;
        anchored_at = now;
        bump = bump;
      })
