-- ===== src/Aegis/Attestation/Lifecycle.antt =====
-- One issuer and the account of one of its credentials, under sequences of the instructions on them
-- (programs/aegis/src/instructions/attestation.rs, issuer.rs), against the life of a credential as a
-- state machine.
mod Tests
pub mod Steps
pub mod Runs
use vesta_core.Base.{
  ℕ, zero, suc, ◌+◌, ◌≡◌, ◌≤◌, ◌≢◌, refl, sym, ap, ◌∙◌, ◌⊎◌, inl, inr, Bool, true, false, not,
  Option, none, some, List, [], ◌∷◌, ℤ, ◌==◌, if◌then◌else◌, arith, Result, ok, err, constraint,
  panic, ◌>>=◌, ◌>>◌, require, expect, >>=-ok, ok-inj, expect_inv, Slot,
}
use vesta_core.Aegis.Error.{AegisError}
use vesta_core.Aegis.State.{
  Pubkey, Issuer, is_signer_authorized, Attestation, attestation_active, attestation_revoked,
  attestation_erased,
}
use vesta_core.Aegis.Issuer.{
  handle_set_issuer_paused, handle_set_operator, handle_transfer_issuer_authority,
  handle_accept_issuer_authority,
}
use vesta_core.Aegis.Attestation.{
  AttestationData, validate, of_issuer, handle_issue_attestation, handle_update_attestation,
  handle_revoke_attestation, handle_erase_attestation, handle_close_attestation,
}

-- The seeds of the credential's address.
pub record Name : Type 0 where
  pub issuer_key : Pubkey
  pub subject : Pubkey
  pub schema_id : ℕ

pub record World : Type 0 where
  pub issuer : Issuer
  pub attestation : Option Attestation

-- An instruction, with its signer first.
pub data Instruction : Type 0 where
  issue : Pubkey → ℕ → AttestationData → ℤ → Instruction
  update : Pubkey → AttestationData → ℤ → Instruction
  revoke : Pubkey → Instruction
  erase : Pubkey → Instruction
  close : Pubkey → Pubkey → Instruction
  set_paused : Pubkey → Bool → Instruction
  set_operator : Pubkey → Option Pubkey → Instruction
  transfer_authority : Pubkey → Pubkey → Instruction
  accept_authority : Pubkey → Instruction

-- the account of the credential, which Anchor demands to exist
pub stored : Option Attestation → Result AegisError Attestation
stored none = constraint
stored (some a) = ok a

-- `init` demands a free address.
pub is_free : Option Attestation → Bool
is_free none = true
is_free (some a) = false

abbrev pub hold : World → Attestation → World
hold w a = record w { attestation = some a }

unfoldable pub execute : Name → World → Instruction → Result AegisError World
execute n w (issue signer bump d now) = do
  expect (d.schema_id == n.schema_id)
  expect (is_free w.attestation)
  r ← handle_issue_attestation w.issuer n.issuer_key signer n.subject bump d now
  ok (record { issuer = r.0; attestation = some r.1 })
execute n w (update signer d now) = do
  a ← stored w.attestation
  a' ← handle_update_attestation w.issuer n.issuer_key a signer d now
  ok (hold w a')
execute n w (revoke signer) = do
  a ← stored w.attestation
  a' ← handle_revoke_attestation w.issuer n.issuer_key a signer
  ok (hold w a')
execute n w (erase signer) = do
  a ← stored w.attestation
  a' ← handle_erase_attestation w.issuer n.issuer_key a signer
  ok (hold w a')
execute n w (close signer rent_recipient) = do
  a ← stored w.attestation
  handle_close_attestation w.issuer n.issuer_key a signer rent_recipient
  ok (record w { attestation = none })
execute n w (set_paused signer paused) = do
  i ← handle_set_issuer_paused w.issuer signer paused
  ok (record w { issuer = i })
execute n w (set_operator signer operator) = do
  i ← handle_set_operator w.issuer signer operator
  ok (record w { issuer = i })
execute n w (transfer_authority signer new) = do
  i ← handle_transfer_issuer_authority w.issuer signer new
  ok (record w { issuer = i })
execute n w (accept_authority signer) = do
  i ← handle_accept_issuer_authority w.issuer signer
  ok (record w { issuer = i })

-- A refused instruction leaves the accounts as they were.
abbrev pub settle : World → Result AegisError World → World
settle w (ok w') = w'
settle w (err code) = w
settle w constraint = w
settle w panic = w

pub run : Name → World → List Instruction → World
run n w [] = w
run n w (i ∷ is) = run n (settle w (execute n w i)) is

-- The life of a credential, as its readers know it.
pub data Phase : Type 0 where
  absent active revoked erased : Phase

pub data Event : Type 0 where
  issuing updating revoking erasing closing administering : Event

abbrev pub event : Instruction → Event
event (issue _ _ _ _) = issuing
event (update _ _ _) = updating
event (revoke _) = revoking
event (erase _) = erasing
event (close _ _) = closing
event (set_paused _ _) = administering
event (set_operator _ _) = administering
event (transfer_authority _ _) = administering
event (accept_authority _) = administering

-- `Move e p q`: the event may take a credential from phase p to phase q.
pub data Move : Event → Phase → Phase → Type 0 where
  issued : Move issuing absent active
  updated : Move updating active active
  withdrawn : Move revoking active revoked
  forgotten : Move erasing active erased
  forgotten_late : Move erasing revoked erased
  closed : {p : Phase} → p ≢ absent → Move closing p absent
  administered : {p : Phase} → Move administering p p

-- The events of a run that were not refused.
pub data History : Phase → Phase → List Event → Type 0 where
  start : {p : Phase} → History p p []
  next :
      {p q r : Phase} {e : Event} {es : List Event}
      → Move e p q
      → History q r es
      → History p r (e ∷ es)

abbrev pub phase_of_status : ℕ → Phase
phase_of_status zero = active
phase_of_status (suc zero) = revoked
phase_of_status (suc (suc n)) = erased

-- The phase that a credential's account stands for.
abbrev pub phase : Option Attestation → Phase
phase none = absent
phase (some a) = phase_of_status a.status

-- The status is one of the three.
abbrev pub IsCoded : Option Attestation → Type 0
IsCoded none = Unit
IsCoded (some a) = a.status ≤ attestation_erased

-- An event that the credential's life allows, and a status that is one of the three.
abbrev pub Follows : Event → Option Attestation → Option Attestation → Type 0
Follows e o o' = Move e (phase o) (phase o') × IsCoded o'
