-- ===== src/Merchants/Trust.antt =====
-- The accredited identity of a merchant (programs/vesta-core/src/instructions/merchant_trust.rs).
pub mod Degrade
use vesta_core.Base.{
  ℕ, Bool, true, false, ◌||◌, not, Option, none, some, ℤ, pos, eqb_ℤ, leb_ℤ, checked_sub_i64, ◌==◌,
  if◌then◌else◌, Result, ok, ◌>>=◌, ◌>>◌, require, Slot,
}
use vesta_core.Aegis.State.{TrustRoot, Accreditation}
use vesta_core.Aegis.Verify.{Verdict}
use vesta_core.Aegis.Registry.{Registry, read_verdict}
use vesta_core.Vesta.Constants.{
  Pubkey, default_key, state_version, issue_normal, earn_frozen, redemption_only,
}
use vesta_core.Vesta.Error.{
  VestaError, invalid_issue_status, invalid_grace, merchant_trust_missing, aegis_program_mismatch,
  conversion_failed,
}
use vesta_core.Vesta.Merchant.{Merchant}
use vesta_core.Vesta.Assurance.{MerchantTrust}
use vesta_core.Merchants.{owner_only}

-- `issue_status::is_valid_target`
abbrev pub is_valid_target : ℕ → Bool
is_valid_target s = s == earn_frozen || s == redemption_only

pub record TrustParams : Type 0 where
  pub accreditation_root : Pubkey
  pub subject_issuer : Pubkey
  pub required_schema : ℕ
  pub aegis_program : Pubkey
  pub degrade_target : ℕ
  pub grace_secs : ℤ

-- The account is created if there is none: a new one is zero.
pub handle_set_merchant_trust :
    Merchant
    → Pubkey
    → Pubkey
    → MerchantTrust
    → ℕ
    → TrustParams
    → ℤ
    → Result VestaError MerchantTrust
handle_set_merchant_trust m merchant_key signer t bump params now = do
  owner_only m signer
  require (is_valid_target params.degrade_target) invalid_issue_status
  require (leb_ℤ (pos 0) params.grace_secs) invalid_grace
  require (not (params.accreditation_root == default_key)) merchant_trust_missing
  require (not (params.aegis_program == default_key)) aegis_program_mismatch
  ok (record t {
    version = state_version;
    merchant = merchant_key;
    accreditation_root = params.accreditation_root;
    subject_issuer = params.subject_issuer;
    required_schema = params.required_schema;
    aegis_program = params.aegis_program;
    degrade_target = params.degrade_target;
    grace_secs = params.grace_secs;
    failing_since = pos 0;
    last_verified_at = now;
    bump = bump;
  })

-- `now.checked_sub(since).unwrap_or(0)`
abbrev pub elapsed : ℤ → ℤ → ℤ
elapsed now since = elim (checked_sub_i64 now since) [ none ↦ pos 0 | some secs ↦ secs ]

-- The streak of failures starts at the first one.
pub failing_from : MerchantTrust → ℤ → ℤ
failing_from t now = if eqb_ℤ t.failing_since (pos 0) then now else t.failing_since

-- The new posture and the anchor after a verdict.
pub apply_verdict : MerchantTrust → ℕ → Verdict → ℤ → ℕ × MerchantTrust
unfolding failing_from
apply_verdict t old_status verdict now =
    if verdict.ok
    then (
      issue_normal,
      record t {
        failing_since = pos 0;
        last_verified_at = now;
        tier = verdict.tier;
        jurisdiction = verdict.jurisdiction;
      },
    )
    else (
      (if leb_ℤ t.grace_secs (elapsed now (failing_from t now))
          then t.degrade_target
          else old_status),
      record t { failing_since = failing_from t now },
    )

-- Anyone may call it.
pub handle_reverify_merchant :
    Registry VestaError
    → Merchant
    → MerchantTrust
    → Slot TrustRoot
    → Slot Accreditation
    → Pubkey
    → ℤ
    → Result VestaError (Merchant × MerchantTrust)
unfolding apply_verdict read_verdict
handle_reverify_merchant aegis m t trust_root accreditation aegis_program now = do
  require (aegis_program == t.aegis_program) aegis_program_mismatch
  let program = aegis.program t.aegis_program
  require (trust_root.key == program.trust_root_address t.accreditation_root) merchant_trust_missing
  require (accreditation.key == program.accreditation_address t.accreditation_root t.subject_issuer)
      merchant_trust_missing
  reply ←
      aegis.verify_accreditation aegis_program trust_root accreditation t.accreditation_root
        t.subject_issuer t.required_schema now
  verdict ← read_verdict reply t.aegis_program conversion_failed aegis_program_mismatch
  let (status, t') = apply_verdict t m.issue_status verdict now
  ok (record m { issue_status = status }, t')

pub handle_set_merchant_issue_status :
    Merchant → MerchantTrust → Pubkey → ℕ → Result VestaError (Merchant × MerchantTrust)
handle_set_merchant_issue_status m t signer status = do
  owner_only m signer
  require (status == issue_normal || is_valid_target status) invalid_issue_status
  ok (
    record m { issue_status = status },
    (if status == issue_normal then record t { failing_since = pos 0 } else t),
  )
