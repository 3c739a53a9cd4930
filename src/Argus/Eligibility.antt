-- ===== src/Argus/Eligibility.antt =====
-- The cached eligibility of a wallet at a guarded mint (programs/argus/src/instructions/refresh_eligibility.rs).
pub mod Gate
use vesta_core.Base.{
  ℕ, Bool, true, false, not, Option, none, some, ℤ, pos, ltb_ℤ, checked_add_i64, ◌==◌,
  if◌then◌else◌, Result, ok, ◌>>=◌, ◌>>◌, require, ok_or, Slot,
}
use vesta_core.Aegis.State.{Attestation, Policy}
use vesta_core.Aegis.Verify.{Verdict, VerifyPredicate}
use vesta_core.Aegis.Registry.{Registry, Reply, read_verdict}
use vesta_core.Argus.Error.{
  GuardError, aegis_program_mismatch, meta_list_mismatch, eligibility_stale, overflow,
}
use vesta_core.Argus.State.{
  Pubkey, default_key, state_version, predicate_attestation_bit, GuardConfig, EligibilityCapability,
}
use vesta_core.Argus.Trust.{guard_authority}

-- 24 hours
abbrev pub capability_ttl_secs : ℕ
capability_ttl_secs = 86_400

pub record RefreshEligibility : Type 0 where
  pub mint : Pubkey
  pub guard_config : GuardConfig
  pub subject : Pubkey
  pub capability_bump : ℕ
  pub attestation : Slot Attestation
  pub policy : Slot Policy
  pub aegis_program : Pubkey

-- The verdict on the subject: the enforced policy's if there is one, else the credential's alone.
pub ask : Registry GuardError → RefreshEligibility → ℤ → Result GuardError Reply
ask aegis a now =
    if not (a.guard_config.policy == default_key)
    then (do
      require (a.policy.key == a.guard_config.policy) meta_list_mismatch
      aegis.verify_policy a.aegis_program a.policy a.attestation a.subject now)
    else aegis.verify a.aegis_program a.attestation
        (record {
          issuer = a.guard_config.attestation_issuer;
          subject = a.subject;
          schema_id = a.guard_config.attestation_schema;
        })
        now

abbrev pub ttl_of : GuardConfig → ℤ
ttl_of c =
    if ltb_ℤ (pos 0) c.capability_ttl_secs then c.capability_ttl_secs else pos capability_ttl_secs

pub handle_refresh_eligibility :
    Registry GuardError → RefreshEligibility → ℤ → Result GuardError EligibilityCapability
unfolding ask read_verdict
handle_refresh_eligibility aegis a now = do
  require (a.aegis_program == a.guard_config.aegis_program) aegis_program_mismatch
  reply ← ask aegis a now
  verdict ← read_verdict reply a.guard_config.aegis_program eligibility_stale aegis_program_mismatch
  expires_at ← ok_or (checked_add_i64 now (ttl_of a.guard_config)) overflow
  ok (record {
    version = state_version;
    mint = a.mint;
    subject = a.subject;
    verdicts = (if verdict.ok then predicate_attestation_bit else 0);
    aegis_program = a.guard_config.aegis_program;
    policy_epoch = a.guard_config.policy_epoch;
    screening_epoch = a.guard_config.screening_epoch;
    jurisdiction = verdict.jurisdiction;
    tier = verdict.tier;
    issued_at = now;
    expires_at = expires_at;
    bump = a.capability_bump;
  })

pub handle_invalidate_capability :
    GuardConfig → Pubkey → EligibilityCapability → Result GuardError EligibilityCapability
handle_invalidate_capability c signer cap = do
  guard_authority c signer
  ok (record cap { verdicts = 0; expires_at = pos 0 })
