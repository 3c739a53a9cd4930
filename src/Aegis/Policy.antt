-- ===== src/Aegis/Policy.antt =====
-- Named verifier policies (programs/aegis/src/instructions/policy.rs).
pub mod Verdicts
use vesta_core.Base.{
  ℕ, Bool, true, false, Option, none, some, ℤ, pos, leb_ℤ, ◌==◌, if◌then◌else◌, Result, ok, err,
  ◌>>=◌, ◌>>◌, require, Slot,
}
use vesta_core.Aegis.Error.{AegisError, unauthorized, invalid_valid_from}
use vesta_core.Aegis.State.{Pubkey, state_version, Attestation, Policy}
use vesta_core.Aegis.Verify.{Program, Verdict, fail, policy_deprecated, evaluate}

pub handle_register_policy : Pubkey → ℕ → ℕ → ℕ → Pubkey → ℕ → ℤ → Result AegisError Policy
handle_register_policy authority bump id jurisdiction issuer schema_id freshness_secs = do
  require (leb_ℤ (pos 0) freshness_secs) invalid_valid_from
  ok (record {
    version = state_version;
    authority = authority;
    id = id;
    jurisdiction = jurisdiction;
    issuer = issuer;
    schema_id = schema_id;
    freshness_secs = freshness_secs;
    deprecated = false;
    successor = none;
    bump = bump;
  })

pub handle_deprecate_policy : Policy → Pubkey → Option Pubkey → Result AegisError Policy
handle_deprecate_policy p signer successor = do
  require (p.authority == signer) unauthorized
  ok (record p { deprecated = true; successor = successor })

-- The verdict carries the policy's jurisdiction, whatever it is.
unfoldable pub handle_verify_policy : Program → Policy → Slot Attestation → Pubkey → ℤ → Verdict
unfolding fail evaluate
handle_verify_policy program p account subject now =
    let verdict =
      if p.deprecated
      then fail policy_deprecated
      else evaluate program account p.issuer subject p.schema_id p.freshness_secs now in
    record verdict { jurisdiction = p.jurisdiction }
