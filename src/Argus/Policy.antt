-- ===== src/Argus/Policy.antt =====
-- The policy of a mint and its direct control by the guard authority
-- (programs/argus/src/instructions/policy.rs and admin.rs).
use vesta_core.Base.{
  ℕ, Bool, true, false, ◌&&◌, ◌||◌, not, Option, none, some, ℤ, pos, leb_ℤ, leb, bit_and, ◌==◌,
  if◌then◌else◌, Result, ok, ◌>>◌, require, saturating_add, u64_max,
}
use vesta_core.Argus.Error.{
  GuardError, unauthorized, unknown_flag, invalid_policy, role_unauthorized,
  pending_authority_mismatch,
}
use vesta_core.Argus.Flag
use vesta_core.Argus.State.{Pubkey, default_key, GuardConfig, has_flag}

-- The fields of a guard that governance controls.
pub record PolicyDoc : Type 0 where
  pub flags : ℕ
  pub daily_gift_cap : ℕ
  pub per_tx_cap : ℕ
  pub max_wallet_balance : ℕ
  pub transfers_per_day_cap : ℕ
  pub cooldown_secs : ℕ
  pub attestation_schema : ℕ
  pub capability_ttl_secs : ℤ
  pub policy : Pubkey

unfoldable pub as_policy_doc : GuardConfig → PolicyDoc
as_policy_doc c = record {
  flags = c.flags;
  daily_gift_cap = c.daily_gift_cap;
  per_tx_cap = c.per_tx_cap;
  max_wallet_balance = c.max_wallet_balance;
  transfers_per_day_cap = c.transfers_per_day_cap;
  cooldown_secs = c.cooldown_secs;
  attestation_schema = c.attestation_schema;
  capability_ttl_secs = c.capability_ttl_secs;
  policy = c.policy;
}

-- A partial retune: `none` leaves the field.
pub record PolicyUpdate : Type 0 where
  pub flags : Option ℕ
  pub daily_gift_cap : Option ℕ
  pub per_tx_cap : Option ℕ
  pub max_wallet_balance : Option ℕ
  pub transfers_per_day_cap : Option ℕ
  pub cooldown_secs : Option ℕ
  pub attestation_schema : Option ℕ
  pub capability_ttl_secs : Option ℤ

abbrev or_keep : {A : Type 0} → Option A → A → A
or_keep none old = old
or_keep (some new) old = new

abbrev valid_ttl : Option ℤ → Bool
valid_ttl none = true
valid_ttl (some v) = leb_ℤ (pos 0) v

-- A cap for one transfer above the cap for a day is refused, unless one of them is off.
abbrev coherent_caps : ℕ → ℕ → Bool
coherent_caps daily per_tx =
    if not (daily == 0) && not (per_tx == 0) then leb per_tx daily else true

unfoldable pub validate_policy : ℕ → ℕ → ℕ → Pubkey → Pubkey → Pubkey → Result GuardError (Unit {0})
validate_policy flags daily_gift_cap per_tx_cap aegis_program policy attestation_issuer = do
  require (bit_and flags Flag.unknown == 0) unknown_flag
  require (coherent_caps daily_gift_cap per_tx_cap) invalid_policy
  if has_flag flags Flag.require_attestation
      then (do
        require (not (aegis_program == default_key)) invalid_policy
        require (not (policy == default_key) || not (attestation_issuer == default_key))
            invalid_policy)
      else ok tt

-- `PolicyUpdate::apply`
pub apply_update : PolicyUpdate → GuardConfig → Result GuardError GuardConfig
apply_update u c = do
  let c' = record c {
    flags = or_keep u.flags c.flags;
    daily_gift_cap = or_keep u.daily_gift_cap c.daily_gift_cap;
    per_tx_cap = or_keep u.per_tx_cap c.per_tx_cap;
    max_wallet_balance = or_keep u.max_wallet_balance c.max_wallet_balance;
    transfers_per_day_cap = or_keep u.transfers_per_day_cap c.transfers_per_day_cap;
    cooldown_secs = or_keep u.cooldown_secs c.cooldown_secs;
    attestation_schema = or_keep u.attestation_schema c.attestation_schema;
    capability_ttl_secs = or_keep u.capability_ttl_secs c.capability_ttl_secs;
    policy_epoch = saturating_add u64_max c.policy_epoch 1;
  }
  require (valid_ttl u.capability_ttl_secs) invalid_policy
  validate_policy c'.flags c'.daily_gift_cap c'.per_tx_cap c'.aegis_program c'.policy
      c'.attestation_issuer
  ok c'

pub require_guard_authority : Pubkey → Pubkey → Result GuardError (Unit {0})
require_guard_authority config_authority signer = require (config_authority == signer) unauthorized

unfoldable pub handle_configure_policy :
    GuardConfig → Pubkey → PolicyUpdate → Result GuardError GuardConfig
unfolding require_guard_authority apply_update validate_policy
handle_configure_policy c signer update = do
  require_guard_authority c.authority signer
  require (not c.governed) role_unauthorized
  apply_update update c

unfoldable pub handle_set_guard_paused : GuardConfig → Pubkey → Bool → Result GuardError GuardConfig
unfolding require_guard_authority
handle_set_guard_paused c signer paused = do
  require_guard_authority c.authority signer
  ok (record c { paused = paused })

unfoldable pub handle_transfer_guard_authority :
    GuardConfig → Pubkey → Pubkey → Result GuardError GuardConfig
unfolding require_guard_authority
handle_transfer_guard_authority c signer new_authority = do
  require_guard_authority c.authority signer
  ok (record c { pending_authority = some new_authority })

abbrev pub is_pending : Option Pubkey → Pubkey → Bool
is_pending none key = false
is_pending (some pending) key = pending == key

unfoldable pub handle_accept_guard_authority : GuardConfig → Pubkey → Result GuardError GuardConfig
handle_accept_guard_authority c signer = do
  require (is_pending c.pending_authority signer) pending_authority_mismatch
  ok (record c { authority = signer; pending_authority = none })
