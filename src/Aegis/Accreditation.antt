-- ===== src/Aegis/Accreditation.antt =====
-- Trust roots and the issuers they accredit (programs/aegis/src/instructions/accreditation.rs).
pub mod Edges
pub mod Grants
use vesta_core.Base.{
  ℕ, zero, suc, Bool, true, false, ◌&&◌, ◌||◌, not, Option, none, some, List, [], ◌∷◌, ℤ, pos,
  eqb_ℤ, ltb_ℤ, leb, ◌==◌, if◌then◌else◌, length, Result, ok, err, ◌>>=◌, ◌>>◌, require, ok_or,
  try_from, u8_max, Slot,
}
use vesta_core.Aegis.Error.{
  AegisError, invalid_name, string_too_long, unauthorized, invalid_expiry,
  permitted_schemas_required,
}
use vesta_core.Aegis.State.{
  Pubkey, Text, state_version, max_name_len, max_permitted_schemas, TrustRoot, Accreditation,
  accreditation_active, accreditation_revoked, accreditation_is_live, permits,
}
use vesta_core.Aegis.Verify.{
  Program, Verdict, fail, reason_ok, root_inactive, not_accredited, schema_not_permitted,
}

pub handle_register_trust_root : Pubkey → ℕ → Text → Result AegisError TrustRoot
handle_register_trust_root authority bump name = do
  require (not (length name == 0) && leb (length name) max_name_len) invalid_name
  ok (record {
    version = state_version;
    authority = authority;
    name = name;
    active = true;
    bump = bump;
  })

-- `has_one = authority @ Unauthorized`
pub root_authority : TrustRoot → Pubkey → Result AegisError (Unit {0})
root_authority r signer = require (r.authority == signer) unauthorized

pub handle_set_root_active : TrustRoot → Pubkey → Bool → Result AegisError TrustRoot
unfolding root_authority
handle_set_root_active r signer active = do
  root_authority r signer
  ok (record r { active = active })

-- The slots, with the schemas in the first of them: `zip` ends with the shorter one.
pub fill : List ℕ → List ℕ → List ℕ
fill [] schemas = []
fill (slot ∷ slots) [] = slot ∷ slots
fill (slot ∷ slots) (schema ∷ schemas) = schema ∷ fill slots schemas

abbrev no_schemas : List ℕ
no_schemas = 0 ∷ 0 ∷ 0 ∷ 0 ∷ 0 ∷ 0 ∷ 0 ∷ 0 ∷ []

pub handle_accredit_issuer :
    TrustRoot → Pubkey → ℕ → Pubkey → ℕ → List ℕ → ℕ → ℤ → ℤ → Result AegisError Accreditation
unfolding root_authority fill
handle_accredit_issuer r signer bump subject_issuer tier schemas jurisdiction expires_at now = do
  root_authority r signer
  require r.active unauthorized
  require (not (length schemas == 0)) permitted_schemas_required
  require (leb (length schemas) max_permitted_schemas) string_too_long
  require (eqb_ℤ expires_at (pos 0) || ltb_ℤ now expires_at) invalid_expiry
  count ← ok_or (try_from u8_max (length schemas)) string_too_long
  ok (record {
    version = state_version;
    root = signer;
    subject_issuer = subject_issuer;
    tier = tier;
    permitted_schemas = fill no_schemas schemas;
    permitted_count = count;
    jurisdiction = jurisdiction;
    status = accreditation_active;
    issued_at = now;
    expires_at = expires_at;
    bump = bump;
  })

pub handle_revoke_accreditation :
    TrustRoot → Accreditation → Pubkey → Result AegisError Accreditation
unfolding root_authority
handle_revoke_accreditation r a signer = do
  root_authority r signer
  ok (record a { status = accreditation_revoked })

abbrev root_is_trusted : Option TrustRoot → Bool
root_is_trusted none = false
root_is_trusted (some r) = r.version == state_version && r.active

-- The tests on the accreditation itself.
unfoldable pub judge_accreditation : Option Accreditation → Pubkey → Pubkey → ℕ → ℤ → Verdict
unfolding fail accreditation_is_live permits
judge_accreditation none root subject_issuer schema_id now = fail not_accredited
judge_accreditation (some a) root subject_issuer schema_id now =
    if not (a.version == state_version)
      || not (a.root == root)
      || not (a.subject_issuer == subject_issuer)
      || not (accreditation_is_live a now)
    then fail not_accredited
    else if not (permits a schema_id)
    then fail schema_not_permitted
    else record {
      ok = true;
      reason_code = reason_ok;
      issuer = subject_issuer;
      schema_id = schema_id;
      expires_at = a.expires_at;
      jurisdiction = a.jurisdiction;
      tier = a.tier;
    }

unfoldable pub handle_verify_accreditation :
    Program → Slot TrustRoot → Slot Accreditation → Pubkey → Pubkey → ℕ → ℤ → Verdict
unfolding fail judge_accreditation
handle_verify_accreditation p trust_root accreditation root subject_issuer schema_id now =
    if not (trust_root.key == p.trust_root_address root)
      || not (trust_root.owner == p.id)
      || trust_root.is_empty
    then fail root_inactive
    else if not (root_is_trusted trust_root.content)
    then fail root_inactive
    else if not (accreditation.key == p.accreditation_address root subject_issuer)
        || not (accreditation.owner == p.id)
        || accreditation.is_empty
    then fail not_accredited
    else judge_accreditation accreditation.content root subject_issuer schema_id now
