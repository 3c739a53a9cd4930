-- ===== src/Aegis/Samples.antt =====
-- Accounts of the credential registry for runs on concrete data.
use vesta_core.Base.{
  refl, ok, Option, ℤ, Result, constraint, ◌+◌, ◌*◌, true, false, none, some, [], ◌∷◌, pos, Slot,
}
use vesta_core.Aegis.State.{Pubkey, Issuer, Attestation, TrustRoot, Accreditation, Policy}
use vesta_core.Aegis.Verify.{Program, handle_verify}
use vesta_core.Aegis.Accreditation.{handle_verify_accreditation}
use vesta_core.Aegis.Policy.{handle_verify_policy}
use vesta_core.Aegis.Registry.{Reply, Registry, IsDeployed}

abbrev pub registry : Program
registry = record {
  id = 3;
  attestation_address = λ issuer subject schema_id. 1_000 + 100 * issuer + 10 * subject + schema_id;
  trust_root_address = λ authority. 2_000 + authority;
  accreditation_address = λ root issuer. 3_000 + 10 * root + issuer;
}

abbrev pub bank : Issuer
bank = record {
  version = 1;
  id = 1;
  authority = 40;
  pending_authority = none;
  operator = some 41;
  name = 98 ∷ [];
  issued = 0;
  paused = false;
  bump = 255;
}

-- The bank, at address 4, on subject 5, in schema 2.
abbrev pub credential : Attestation
credential = record {
  version = 1;
  issuer = 4;
  subject = 5;
  schema_id = 2;
  commitment = 77;
  attr_root = 78;
  issued_at = pos 1_000;
  valid_from = pos 0;
  expires_at = pos 9_000;
  status = 0;
  bump = 254;
}

abbrev pub at_home : Slot Attestation
at_home = record { key = 1_452; owner = 3; is_empty = false; content = some credential }

abbrev pub kyc : Policy
kyc = record {
  version = 1;
  authority = 50;
  id = 6;
  jurisdiction = 756;
  issuer = 4;
  schema_id = 2;
  freshness_secs = pos 5_000;
  deprecated = false;
  successor = none;
  bump = 253;
}

abbrev pub regulator : TrustRoot
regulator = record { version = 1; authority = 8; name = 114 ∷ []; active = true; bump = 252 }

-- The regulator, of address and authority 8, accredits the bank for schemas 2 and 9.
abbrev pub charter : Accreditation
charter = record {
  version = 1;
  root = 8;
  subject_issuer = 4;
  tier = 1;
  permitted_schemas = 2 ∷ 9 ∷ 0 ∷ 0 ∷ 0 ∷ 0 ∷ 0 ∷ 0 ∷ [];
  permitted_count = 2;
  jurisdiction = 756;
  status = 0;
  issued_at = pos 500;
  expires_at = pos 0;
  bump = 251;
}

abbrev pub root_slot : Slot TrustRoot
root_slot = record { key = 2_008; owner = 3; is_empty = false; content = some regulator }

abbrev pub charter_slot : Slot Accreditation
charter_slot = record { key = 3_084; owner = 3; is_empty = false; content = some charter }

-- Every address is a deployment, and a call of one of them returns its verdict.
abbrev pub deployed_at : Pubkey → Program
deployed_at key = record registry { id = key }

abbrev answer_policy :
    {E : Type 0} → Pubkey → Option Policy → Slot Attestation → Pubkey → ℤ → Result E Reply
answer_policy key none account subject now = constraint
answer_policy key (some p) account subject now =
    ok (some (key, some (handle_verify_policy (deployed_at key) p account subject now)))

abbrev pub network : {E : Type 0} → Registry E
network = record {
  program = deployed_at;
  verify =
      λ key account q now. ok (some (key, some (handle_verify (deployed_at key) account q now)));
  verify_policy =
      λ key slot account subject now. answer_policy key slot.content account subject now;
  verify_accreditation = λ key root edge authority issuer schema_id now. ok (
      some (
        key,
        some (
            handle_verify_accreditation (deployed_at key) root edge authority issuer schema_id now),
      ));
}

pub network-IsDeployed : {E : Type 0} (key : Pubkey) → IsDeployed {E = E} network key
network-IsDeployed key = record {
  at = refl;
  verifies = λ account q now. refl;
  verifies_policies = λ slot policy account subject now o c. rw c refl;
  verifies_accreditations = λ root edge authority issuer schema_id now. refl;
}
