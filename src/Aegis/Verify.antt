-- ===== src/Aegis/Verify.antt =====
-- The verdict on a credential (programs/aegis/src/instructions/verify.rs). The derivation of a
-- credential's address is a parameter, and so is the program's own address.
pub mod Verdicts
use vesta_core.Base.{
  ℕ, Bool, true, false, ◌&&◌, ◌||◌, not, Option, none, some, ℤ, pos, eqb_ℤ, leb_ℤ, ltb_ℤ,
  saturating_sub_i64, ◌==◌, if◌then◌else◌, Slot,
}
use vesta_core.Aegis.State.{
  Pubkey, default_key, state_version, Attestation, attestation_active, attestation_is_live,
}

pub record Verdict : Type 0 where
  pub ok : Bool
  pub reason_code : ℕ
  pub issuer : Pubkey
  pub schema_id : ℕ
  pub expires_at : ℤ
  pub jurisdiction : ℕ
  pub tier : ℕ

-- The program's address, and its derivation of the addresses of credentials, of trust roots and of
-- accreditations from their seeds.
pub record Program : Type 0 where
  pub id : Pubkey
  pub attestation_address : Pubkey → Pubkey → ℕ → Pubkey
  pub trust_root_address : Pubkey → Pubkey
  pub accreditation_address : Pubkey → Pubkey → Pubkey

pub record VerifyPredicate : Type 0 where
  pub issuer : Pubkey
  pub subject : Pubkey
  pub schema_id : ℕ

-- `verify_reason`
abbrev pub reason_ok : ℕ
reason_ok = 0

abbrev pub not_found : ℕ
not_found = 1

abbrev pub wrong_issuer : ℕ
wrong_issuer = 2

abbrev pub wrong_schema : ℕ
wrong_schema = 3

abbrev pub not_active : ℕ
not_active = 4

abbrev pub out_of_window : ℕ
out_of_window = 5

abbrev pub too_old : ℕ
too_old = 9

abbrev pub root_inactive : ℕ
root_inactive = 10

abbrev pub not_accredited : ℕ
not_accredited = 11

abbrev pub schema_not_permitted : ℕ
schema_not_permitted = 12

abbrev pub policy_deprecated : ℕ
policy_deprecated = 13

unfoldable pub fail : ℕ → Verdict
fail reason = record {
  ok = false;
  reason_code = reason;
  issuer = default_key;
  schema_id = 0;
  expires_at = pos 0;
  jurisdiction = 0;
  tier = 0;
}

-- The tests on the credential itself, in the code's order.
unfoldable pub judge : Attestation → Pubkey → ℕ → ℤ → ℤ → Verdict
unfolding fail attestation_is_live
judge a issuer schema_id max_age_secs now =
    if not (a.version == state_version)
    then fail not_found
    else if not (a.issuer == issuer)
    then fail wrong_issuer
    else if not (a.schema_id == schema_id)
    then fail wrong_schema
    else if not (a.status == attestation_active)
    then fail not_active
    else if not (attestation_is_live a now)
    then fail out_of_window
    else if ltb_ℤ (pos 0) max_age_secs && ltb_ℤ max_age_secs (saturating_sub_i64 now a.issued_at)
    then fail too_old
    else record {
      ok = true;
      reason_code = reason_ok;
      issuer = a.issuer;
      schema_id = a.schema_id;
      expires_at = a.expires_at;
      jurisdiction = 0;
      tier = 0;
    }

abbrev pub judge_content : Option Attestation → Pubkey → ℕ → ℤ → ℤ → Verdict
judge_content none issuer schema_id max_age_secs now = fail not_found
judge_content (some a) issuer schema_id max_age_secs now = judge a issuer schema_id max_age_secs now

unfoldable pub evaluate : Program → Slot Attestation → Pubkey → Pubkey → ℕ → ℤ → ℤ → Verdict
unfolding fail judge
evaluate p account issuer subject schema_id max_age_secs now =
    if not (account.key == p.attestation_address issuer subject schema_id)
    then fail not_found
    else if not (account.owner == p.id) || account.is_empty
    then fail not_found
    else judge_content account.content issuer schema_id max_age_secs now

unfoldable pub handle_verify : Program → Slot Attestation → VerifyPredicate → ℤ → Verdict
unfolding evaluate
handle_verify p account q now = evaluate p account q.issuer q.subject q.schema_id (pos 0) now
