-- ===== src/Aegis/State.antt =====
-- The accounts of the credential registry (programs/aegis/src/state.rs, constants.rs).
use vesta_core.Base.{
  ℕ, Bool, false, ◌&&◌, ◌||◌, not, Option, none, some, List, ℤ, pos, eqb_ℤ, leb_ℤ, ltb_ℤ, ◌==◌,
  length, take, contains, min,
}

abbrev pub Pubkey : Type 0
Pubkey = ℕ

abbrev pub default_key : Pubkey
default_key = 0

abbrev pub Hash : Type 0
Hash = ℕ

abbrev pub Text : Type 0
Text = List ℕ

abbrev pub state_version : ℕ
state_version = 1

abbrev pub max_name_len : ℕ
max_name_len = 48

abbrev pub max_standard_uri_len : ℕ
max_standard_uri_len = 128

abbrev pub max_permitted_schemas : ℕ
max_permitted_schemas = 8

pub record Issuer : Type 0 where
  pub version : ℕ
  pub id : ℕ
  pub authority : Pubkey
  pub pending_authority : Option Pubkey
  pub operator : Option Pubkey
  pub name : Text
  pub issued : ℕ
  pub paused : Bool
  pub bump : ℕ

abbrev pub is_some_key : Option Pubkey → Pubkey → Bool
is_some_key none key = false
is_some_key (some k) key = k == key

unfoldable pub is_signer_authorized : Issuer → Pubkey → Bool
is_signer_authorized i signer = signer == i.authority || is_some_key i.operator signer

pub record Schema : Type 0 where
  pub version : ℕ
  pub registrar : Pubkey
  pub id : ℕ
  pub content_hash : Hash
  pub standard_uri : Text
  pub sas_schema : Option Pubkey
  pub deprecated : Bool
  pub successor : Option Pubkey
  pub bump : ℕ

pub record TrustRoot : Type 0 where
  pub version : ℕ
  pub authority : Pubkey
  pub name : Text
  pub active : Bool
  pub bump : ℕ

-- `accreditation_status`
abbrev pub accreditation_active : ℕ
accreditation_active = 0

abbrev pub accreditation_revoked : ℕ
accreditation_revoked = 1

pub record Accreditation : Type 0 where
  pub version : ℕ
  pub root : Pubkey
  pub subject_issuer : Pubkey
  pub tier : ℕ
  pub permitted_schemas : List ℕ
  pub permitted_count : ℕ
  pub jurisdiction : ℕ
  pub status : ℕ
  pub issued_at : ℤ
  pub expires_at : ℤ
  pub bump : ℕ

-- An expiry of 0 is none.
abbrev pub before_expiry : ℤ → ℤ → Bool
before_expiry expires_at now = eqb_ℤ expires_at (pos 0) || ltb_ℤ now expires_at

unfoldable pub accreditation_is_live : Accreditation → ℤ → Bool
accreditation_is_live a now = a.status == accreditation_active && before_expiry a.expires_at now

unfoldable pub permits : Accreditation → ℕ → Bool
permits a schema_id =
    not (a.permitted_count == 0)
    && contains (take (min a.permitted_count (length a.permitted_schemas)) a.permitted_schemas)
        schema_id

pub record Policy : Type 0 where
  pub version : ℕ
  pub authority : Pubkey
  pub id : ℕ
  pub jurisdiction : ℕ
  pub issuer : Pubkey
  pub schema_id : ℕ
  pub freshness_secs : ℤ
  pub deprecated : Bool
  pub successor : Option Pubkey
  pub bump : ℕ

-- `attestation_status`
abbrev pub attestation_active : ℕ
attestation_active = 0

abbrev pub attestation_revoked : ℕ
attestation_revoked = 1

abbrev pub attestation_erased : ℕ
attestation_erased = 2

pub record Attestation : Type 0 where
  pub version : ℕ
  pub issuer : Pubkey
  pub subject : Pubkey
  pub schema_id : ℕ
  pub commitment : Hash
  pub attr_root : Hash
  pub issued_at : ℤ
  pub valid_from : ℤ
  pub expires_at : ℤ
  pub status : ℕ
  pub bump : ℕ

unfoldable pub attestation_is_live : Attestation → ℤ → Bool
attestation_is_live a now =
    a.status == attestation_active
    && (eqb_ℤ a.valid_from (pos 0) || leb_ℤ a.valid_from now)
    && before_expiry a.expires_at now
