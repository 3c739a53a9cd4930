-- ===== src/Argus/Trust.antt =====
-- The accreditation that a guarded mint rests on (programs/argus/src/instructions/trust.rs, state.rs).
use vesta_core.Base.{
  ℕ, Bool, ◌||◌, not, none, some, ℤ, pos, eqb_ℤ, leb_ℤ, checked_sub_i64, saturating_add, u64_max,
  ◌==◌, if◌then◌else◌, Result, ok, ◌>>=◌, ◌>>◌, require, Slot,
}
use vesta_core.Aegis.State.{TrustRoot, Accreditation}
use vesta_core.Aegis.Verify.{Verdict}
use vesta_core.Aegis.Registry.{Registry, read_verdict}
use vesta_core.Argus.Error.{
  GuardError, unauthorized, invalid_degrade_target, invalid_timelock, trust_anchor_missing,
  aegis_program_mismatch, meta_list_mismatch, eligibility_stale,
}
use vesta_core.Argus.State.{Pubkey, default_key, state_version, degrade_normal, GuardConfig}

abbrev pub redemption_only : ℕ
redemption_only = 1

abbrev pub frozen : ℕ
frozen = 2

-- `degrade::is_valid_target`
abbrev pub is_valid_target : ℕ → Bool
is_valid_target mode = mode == redemption_only || mode == frozen

pub record TrustAnchor : Type 0 where
  pub version : ℕ
  pub mint : Pubkey
  pub accreditation_root : Pubkey
  pub subject_issuer : Pubkey
  pub required_schema : ℕ
  pub aegis_program : Pubkey
  pub degrade_target : ℕ
  pub grace_secs : ℤ
  pub failing_since : ℤ
  pub last_verified_at : ℤ
  pub bump : ℕ

-- `has_one = authority @ Unauthorized`
unfoldable pub guard_authority : GuardConfig → Pubkey → Result GuardError (Unit {0})
guard_authority c signer = require (c.authority == signer) unauthorized

pub handle_set_trust_anchor :
    GuardConfig
    → Pubkey
    → Pubkey
    → ℕ
    → Pubkey
    → Pubkey
    → ℕ
    → ℕ
    → ℤ
    → ℤ
    → Result GuardError TrustAnchor
handle_set_trust_anchor c mint signer bump accreditation_root subject_issuer required_schema
      degrade_target grace_secs now =
    do
      guard_authority c signer
      require (is_valid_target degrade_target) invalid_degrade_target
      require (leb_ℤ (pos 0) grace_secs) invalid_timelock
      require (not (accreditation_root == default_key)) trust_anchor_missing
      ok (record {
        version = state_version;
        mint = mint;
        accreditation_root = accreditation_root;
        subject_issuer = subject_issuer;
        required_schema = required_schema;
        aegis_program = c.aegis_program;
        degrade_target = degrade_target;
        grace_secs = grace_secs;
        failing_since = pos 0;
        last_verified_at = now;
        bump = bump;
      })

-- `now.checked_sub(since).unwrap_or(0)`
abbrev pub elapsed : ℤ → ℤ → ℤ
elapsed now since = elim (checked_sub_i64 now since) [ none ↦ pos 0 | some secs ↦ secs ]

pub failing_from : TrustAnchor → ℤ → ℤ
failing_from t now = if eqb_ℤ t.failing_since (pos 0) then now else t.failing_since

-- The new mode and the anchor after a verdict.
pub apply_verdict : TrustAnchor → ℕ → Verdict → ℤ → ℕ × TrustAnchor
unfolding failing_from
apply_verdict t old_mode verdict now =
    if verdict.ok
    then (degrade_normal, record t { failing_since = pos 0; last_verified_at = now })
    else (
      (if leb_ℤ t.grace_secs (elapsed now (failing_from t now))
          then t.degrade_target
          else old_mode),
      record t { failing_since = failing_from t now },
    )

-- Anyone may call it.
pub handle_reverify_accreditation :
    Registry GuardError
    → GuardConfig
    → TrustAnchor
    → Slot TrustRoot
    → Slot Accreditation
    → Pubkey
    → ℤ
    → Result GuardError (GuardConfig × TrustAnchor)
unfolding apply_verdict read_verdict
handle_reverify_accreditation aegis c t trust_root accreditation aegis_program now = do
  require (aegis_program == t.aegis_program) aegis_program_mismatch
  let program = aegis.program t.aegis_program
  require (trust_root.key == program.trust_root_address t.accreditation_root) meta_list_mismatch
  require (accreditation.key == program.accreditation_address t.accreditation_root t.subject_issuer)
      meta_list_mismatch
  reply ←
      aegis.verify_accreditation aegis_program trust_root accreditation t.accreditation_root
        t.subject_issuer t.required_schema now
  verdict ← read_verdict reply t.aegis_program eligibility_stale aegis_program_mismatch
  let (mode, t') = apply_verdict t c.degrade_mode verdict now
  ok (record c { degrade_mode = mode }, t')

pub handle_set_degrade_mode :
    GuardConfig → TrustAnchor → Pubkey → ℕ → Result GuardError (GuardConfig × TrustAnchor)
handle_set_degrade_mode c t signer mode = do
  guard_authority c signer
  require (mode == degrade_normal || is_valid_target mode) invalid_degrade_target
  ok (
    record c { degrade_mode = mode },
    (if mode == degrade_normal then record t { failing_since = pos 0 } else t),
  )

-- Every capability of an older epoch is void after it.
pub handle_bump_screening_epoch : GuardConfig → Pubkey → Result GuardError GuardConfig
handle_bump_screening_epoch c signer = do
  guard_authority c signer
  ok (record c { screening_epoch = saturating_add u64_max c.screening_epoch 1 })
