-- ===== src/Aegis/Registry.antt =====
-- The registry as a caller of it sees it: the calls of its verdict instructions, with the data that a
-- call leaves behind (`get_return_data`), and how the callers read a verdict from that
-- (programs/vesta-core/src/instructions/merchant_trust.rs, segmentation.rs,
-- programs/argus/src/instructions/trust.rs, refresh_eligibility.rs). A caller names the deployment by its
-- address, so a call is a function of that too.
use vesta_core.Base.{
  ℕ, ◌≡◌, refl, ◌==◌, ==-self, Option, some, ℤ, Result, ok, ◌>>=◌, ◌>>◌, require, ok_or, Slot,
}
use vesta_core.Aegis.State.{Pubkey, TrustRoot, Accreditation, Attestation, Policy}
use vesta_core.Aegis.Verify.{Verdict, Program, VerifyPredicate, handle_verify}
use vesta_core.Aegis.Policy.{handle_verify_policy}
use vesta_core.Aegis.Accreditation.{handle_verify_accreditation}

-- Who returned data, and the verdict in it if it deserializes.
abbrev pub Reply : Type 0
Reply = Option (Pubkey × Option Verdict)

-- The deployments of the registry, by their addresses. A call that fails ends the caller's transaction.
pub record Registry (E : Type 0) : Type 0 where
  pub program : Pubkey → Program
  pub verify : Pubkey → Slot Attestation → VerifyPredicate → ℤ → Result E Reply
  pub verify_policy : Pubkey → Slot Policy → Slot Attestation → Pubkey → ℤ → Result E Reply
  pub verify_accreditation :
      Pubkey → Slot TrustRoot → Slot Accreditation → Pubkey → Pubkey → ℕ → ℤ → Result E Reply

-- The program at an address is the registry: its own address is that one, and a call returns its verdict.
pub record IsDeployed {E : Type 0} (r : Registry E) (key : Pubkey) : Type 0 where
  pub at : (r.program key).id ≡ key
  pub verifies :
      (account : Slot Attestation) (q : VerifyPredicate) (now : ℤ)
      → r.verify key account q now
        ≡ ok (some (key, some (handle_verify (r.program key) account q now)))
  pub verifies_policies :
      (slot : Slot Policy) (policy : Policy) (account : Slot Attestation) (subject : Pubkey)
      (now : ℤ)
      → slot.owner ≡ key
      → slot.content ≡ some policy
      → r.verify_policy key slot account subject now
        ≡ ok (some (key, some (handle_verify_policy (r.program key) policy account subject now)))
  pub verifies_accreditations :
      (trust_root : Slot TrustRoot) (accreditation : Slot Accreditation)
      (root subject_issuer : Pubkey) (schema_id : ℕ) (now : ℤ)
      → r.verify_accreditation key trust_root accreditation root subject_issuer schema_id now
        ≡ ok (
            some (
              key,
              some (
                  handle_verify_accreditation
                    (r.program key)
                    trust_root
                    accreditation
                    root
                    subject_issuer
                    schema_id
                    now),
            ))

-- The verdict of a reply that the program at `key` returned.
unfoldable pub read_verdict : {E : Type 0} → Reply → Pubkey → E → E → Result E Verdict
read_verdict reply key no_data mismatch = do
  (returner, bytes) ← ok_or reply no_data
  require (returner == key) mismatch
  ok_or bytes no_data

-- A reply that the program itself left is read as its verdict.
pub read_verdict-own :
    {E : Type 0} (key : Pubkey) (v : Verdict) (no_data mismatch : E)
    → read_verdict (some (key, some v)) key no_data mismatch ≡ ok v
unfolding read_verdict
read_verdict-own key v no_data mismatch = rw (==-self key) refl
