-- ===== src/Aegis/Attestation/Lifecycle/Tests.antt =====
-- Runs of the instructions on a concrete credential.
use vesta_core.Base.{◌≡◌, refl, true, false, none, some, List, [], ◌∷◌, pos, Slot, inl, arith}
use vesta_core.Aegis.State.{Attestation, is_signer_authorized}
use vesta_core.Aegis.Issuer.{handle_set_issuer_paused, issuer_authority}
use vesta_core.Aegis.Verify.{evaluate}
use vesta_core.Aegis.Samples.{registry, bank, credential}
use vesta_core.Aegis.Attestation.{
  AttestationData, validate, of_issuer, handle_issue_attestation, handle_update_attestation,
  handle_revoke_attestation, handle_erase_attestation,
}
use vesta_core.Aegis.Attestation.Lifecycle.{
  Name, World, Instruction, issue, update, revoke, erase, set_paused, is_free, stored, execute, run,
  absent, revoked, issuing, updating, revoking, administering, History,
}
use vesta_core.Aegis.Attestation.Lifecycle.Runs.{events, run_follows, revoked_stays}

abbrev named : Name
named = record { issuer_key = 4; subject = 5; schema_id = 2 }

abbrev payload : AttestationData
payload = record {
  schema_id = 2;
  commitment = 77;
  attr_root = 78;
  valid_from = pos 0;
  expires_at = pos 9_000;
}

-- A stranger's attempt to revoke is among them, and an update after the revocation.
abbrev script : List Instruction
script =
    issue 41 254 payload (pos 1_000)
    ∷ update 40 payload (pos 1_100)
    ∷ revoke 99
    ∷ set_paused 40 true
    ∷ revoke 41
    ∷ update 40 payload (pos 1_200)
    ∷ []

run_follows_example : History absent revoked (issuing ∷ updating ∷ administering ∷ revoking ∷ [])
unfolding run events execute is_free stored validate of_issuer is_signer_authorized
    handle_issue_attestation handle_update_attestation handle_revoke_attestation
    handle_set_issuer_paused issuer_authority
run_follows_example = (run_follows named (record { issuer = bank; attestation = none }) script tt).0

-- Revoked, and then erased.
abbrev withdrawn : World
withdrawn = record { issuer = bank; attestation = some (record credential { status = 1 }) }

abbrev erased_slot : Slot Attestation
erased_slot = record {
  key = 1_452;
  owner = 3;
  is_empty = false;
  content = some (record credential { status = 2 });
}

revoked_stays_example : (evaluate registry erased_slot 4 5 2 (pos 0) (pos 2_000)).ok ≡ false
unfolding run events execute is_free stored of_issuer is_signer_authorized handle_erase_attestation
    handle_update_attestation
revoked_stays_example =
    revoked_stays named withdrawn (erase 41 ∷ update 40 payload (pos 1_200) ∷ []) registry
      erased_slot (record { issuer = 4; subject = 5; schema_id = 2 }) (pos 0) (pos 2_000)
      (omega arith) (inl refl) refl refl
