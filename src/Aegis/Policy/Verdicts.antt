-- ===== src/Aegis/Policy/Verdicts.antt =====
-- The verdict on a credential by a named policy (programs/aegis/src/instructions/policy.rs).
use vesta_core.Base.{◌≡◌, ◌↔◌, inl, inr, refl, Bool, true, false, ℤ, Slot, Bool-cases}
use vesta_core.Aegis.State.{Pubkey, Attestation, Policy}
use vesta_core.Aegis.Verify.{Program, fail, evaluate}
use vesta_core.Aegis.Verify.Verdicts.{IsVerified, verify_ok, verify_complete}
use vesta_core.Aegis.Policy.{handle_verify_policy}

live_verdict :
    (p : Program) (policy : Policy) (account : Slot Attestation) (subject : Pubkey) (now : ℤ)
    → policy.deprecated ≡ false
    → (handle_verify_policy p policy account subject now).ok
      ≡ (evaluate p account policy.issuer subject policy.schema_id policy.freshness_secs now).ok
unfolding handle_verify_policy
live_verdict p policy account subject now h = rw h refl

deprecated_verdict :
    (p : Program) (policy : Policy) (account : Slot Attestation) (subject : Pubkey) (now : ℤ)
    → policy.deprecated ≡ true
    → (handle_verify_policy p policy account subject now).ok ≡ false
unfolding handle_verify_policy fail
deprecated_verdict p policy account subject now h = rw h refl

-- A policy's verdict on a subject is positive exactly if the policy is not deprecated and the account
-- holds the subject's credential of the policy's issuer and schema, in force and no older than the
-- policy's freshness limit.
pub policy_iff :
    (p : Program) (policy : Policy) (account : Slot Attestation) (subject : Pubkey) (now : ℤ)
    → ((handle_verify_policy p policy account subject now).ok ≡ true) ↔ (
        (policy.deprecated ≡ false)
        × IsVerified p account policy.issuer subject policy.schema_id policy.freshness_secs now)
policy_iff p policy account subject now = elim (Bool-cases policy.deprecated) [
  | inl d ↦ (
    λ h. absurd (contradict h (deprecated_verdict p policy account subject now d)),
    λ v. absurd (contradict d v.0),
  )
  | inr d ↦ rw (live_verdict p policy account subject now d) (
    λ h.
        (d, verify_ok p account policy.issuer subject policy.schema_id policy.freshness_secs now h),
    λ v.
        verify_complete p account policy.issuer subject policy.schema_id policy.freshness_secs now
          v.1,
  )
]
  where
    contradict : {b : Bool} → b ≡ true → b ≡ false → ⊥
    contradict h h' = cc
