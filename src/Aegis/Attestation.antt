-- ===== src/Aegis/Attestation.antt =====
-- The instructions on a credential (programs/aegis/src/instructions/attestation.rs).
pub mod Lifecycle
use vesta_core.Base.{
  ℕ, ◌+◌, Bool, true, false, ◌&&◌, not, Option, none, some, ℤ, pos, eqb_ℤ, leb_ℤ, ltb_ℤ, ◌==◌,
  if◌then◌else◌, saturating_add, u64_max, Result, ok, err, ◌>>=◌, ◌>>◌, require,
}
use vesta_core.Aegis.Error.{
  AegisError, unauthorized, issuer_paused, invalid_expiry, invalid_valid_from, already_revoked,
  schema_mismatch,
}
use vesta_core.Aegis.State.{
  Pubkey, Hash, state_version, Issuer, is_signer_authorized, Attestation, attestation_active,
  attestation_revoked, attestation_erased,
}

pub record AttestationData : Type 0 where
  pub schema_id : ℕ
  pub commitment : Hash
  pub attr_root : Hash
  pub valid_from : ℤ
  pub expires_at : ℤ

pub validate : AttestationData → ℤ → Result AegisError (Unit {0})
validate d now = do
  require (leb_ℤ (pos 0) d.valid_from) invalid_valid_from
  if eqb_ℤ d.expires_at (pos 0) then ok tt else (do
    require (ltb_ℤ now d.expires_at) invalid_expiry
    require (ltb_ℤ d.valid_from d.expires_at) invalid_expiry)

-- The issuer counts the credential.
pub handle_issue_attestation :
    Issuer
    → Pubkey
    → Pubkey
    → Pubkey
    → ℕ
    → AttestationData
    → ℤ
    → Result AegisError (Issuer × Attestation)
unfolding validate
handle_issue_attestation issuer issuer_key signer subject bump d now = do
  require (is_signer_authorized issuer signer) unauthorized
  require (not issuer.paused) issuer_paused
  validate d now
  ok (
    record issuer { issued = saturating_add u64_max issuer.issued 1 },
    record {
      version = state_version;
      issuer = issuer_key;
      subject = subject;
      schema_id = d.schema_id;
      commitment = d.commitment;
      attr_root = d.attr_root;
      issued_at = now;
      valid_from = d.valid_from;
      expires_at = d.expires_at;
      status = attestation_active;
      bump = bump;
    },
  )

-- `has_one = issuer @ Unauthorized`
pub of_issuer : Attestation → Pubkey → Result AegisError (Unit {0})
of_issuer a issuer_key = require (a.issuer == issuer_key) unauthorized

pub handle_update_attestation :
    Issuer → Pubkey → Attestation → Pubkey → AttestationData → ℤ → Result AegisError Attestation
unfolding of_issuer validate
handle_update_attestation issuer issuer_key a signer d now = do
  of_issuer a issuer_key
  require (is_signer_authorized issuer signer) unauthorized
  require (not issuer.paused) issuer_paused
  require (a.status == attestation_active) already_revoked
  require (d.schema_id == a.schema_id) schema_mismatch
  validate d now
  ok (record a {
    commitment = d.commitment;
    attr_root = d.attr_root;
    valid_from = d.valid_from;
    expires_at = d.expires_at;
  })

pub handle_revoke_attestation :
    Issuer → Pubkey → Attestation → Pubkey → Result AegisError Attestation
unfolding of_issuer
handle_revoke_attestation issuer issuer_key a signer = do
  of_issuer a issuer_key
  require (is_signer_authorized issuer signer) unauthorized
  require (a.status == attestation_active) already_revoked
  ok (record a { status = attestation_revoked })

pub handle_erase_attestation :
    Issuer → Pubkey → Attestation → Pubkey → Result AegisError Attestation
unfolding of_issuer
handle_erase_attestation issuer issuer_key a signer = do
  of_issuer a issuer_key
  require (is_signer_authorized issuer signer) unauthorized
  require (not (a.status == attestation_erased)) already_revoked
  ok (record a { status = attestation_erased })

-- `rent_recipient` is the account that takes the rent; the credential's account is gone after.
pub handle_close_attestation :
    Issuer → Pubkey → Attestation → Pubkey → Pubkey → Result AegisError (Unit {0})
unfolding of_issuer
handle_close_attestation issuer issuer_key a signer rent_recipient = do
  require (issuer.authority == rent_recipient) unauthorized
  of_issuer a issuer_key
  require (is_signer_authorized issuer signer) unauthorized
