-- ===== src/Aegis/Attestation/Lifecycle/Steps.antt =====
-- One instruction on an issuer or on its credential, as an event of the credential's life.
use mathlib.Core.Path.{subst}
use vesta_core.Base.{
  ℕ, zero, suc, ◌≡◌, ◌≤◌, ◌≢◌, refl, sym, ap, true, not, Option, none, some, ℤ, ◌==◌, arith, ok,
  require, expect, >>=-ok, ok-inj, expect_inv,
}
use vesta_core.Aegis.State.{
  Pubkey, Issuer, is_signer_authorized, Attestation, attestation_active, attestation_revoked,
  attestation_erased,
}
use vesta_core.Aegis.Issuer.{
  handle_set_issuer_paused, handle_set_operator, handle_transfer_issuer_authority,
  handle_accept_issuer_authority,
}
use vesta_core.Aegis.Attestation.{
  AttestationData, validate, of_issuer, handle_issue_attestation, handle_update_attestation,
  handle_revoke_attestation, handle_erase_attestation, handle_close_attestation,
}
use vesta_core.Aegis.Attestation.Lifecycle.{
  Name, World, Instruction, issue, update, revoke, erase, close, set_paused, set_operator,
  transfer_authority, accept_authority, stored, is_free, execute, absent, erased, Event, issuing,
  updating, revoking, erasing, administering, event, Move, issued, updated, withdrawn, forgotten,
  forgotten_late, closed, administered, phase_of_status, phase, IsCoded, Follows,
}

-- A handler that ends well leaves a status that the credential's phase may move to.
issue_move :
    (issuer : Issuer) (issuer_key signer subject : Pubkey) (bump : ℕ) (d : AttestationData)
    (now : ℤ) {r : Issuer × Attestation}
    → handle_issue_attestation issuer issuer_key signer subject bump d now ≡ ok r
    → r.1.status ≡ attestation_active
unfolding handle_issue_attestation
issue_move issuer issuer_key signer subject bump d now h =
    let (_, _, h) = >>=-ok (require (is_signer_authorized issuer signer) _) _ h in
    let (_, _, h) = >>=-ok (require (not issuer.paused) _) _ h in
    let (_, _, h) = >>=-ok (validate d now) _ h in ground arith

update_move :
    (issuer : Issuer) (issuer_key : Pubkey) (a : Attestation) (signer : Pubkey)
    (d : AttestationData) (now : ℤ) {a' : Attestation}
    → handle_update_attestation issuer issuer_key a signer d now ≡ ok a'
    → (a.status ≡ attestation_active) × (a'.status ≡ attestation_active)
unfolding handle_update_attestation of_issuer
update_move issuer issuer_key a signer d now h = ground arith

revoke_move :
    (issuer : Issuer) (issuer_key : Pubkey) (a : Attestation) (signer : Pubkey) {a' : Attestation}
    → handle_revoke_attestation issuer issuer_key a signer ≡ ok a'
    → (a.status ≡ attestation_active) × (a'.status ≡ attestation_revoked)
unfolding handle_revoke_attestation of_issuer
revoke_move issuer issuer_key a signer h = ground arith

erase_move :
    (issuer : Issuer) (issuer_key : Pubkey) (a : Attestation) (signer : Pubkey) {a' : Attestation}
    → handle_erase_attestation issuer issuer_key a signer ≡ ok a'
    → (a.status ≢ attestation_erased) × (a'.status ≡ attestation_erased)
unfolding handle_erase_attestation of_issuer
erase_move issuer issuer_key a signer h = ground arith

issue-Follows :
    (o : Option Attestation) (a : Attestation)
    → is_free o ≡ true
    → a.status ≡ attestation_active
    → Follows issuing o (some a)
unfolding is_free
issue-Follows none a free s = rw s (issued, omega arith)
issue-Follows (some b) a free s = cc

update-Follows :
    (a a' : Attestation)
    → (a.status ≡ attestation_active) × (a'.status ≡ attestation_active)
    → Follows updating (some a) (some a')
update-Follows a a' s = rw (s.0, s.1) (updated, omega arith)

revoke-Follows :
    (a a' : Attestation)
    → (a.status ≡ attestation_active) × (a'.status ≡ attestation_revoked)
    → Follows revoking (some a) (some a')
revoke-Follows a a' s = rw (s.0, s.1) (withdrawn, omega arith)

erase_move_of :
    (m : ℕ)
    → m ≤ attestation_erased
    → m ≢ attestation_erased
    → Move erasing (phase_of_status m) erased
erase_move_of zero le ne = forgotten
erase_move_of (suc zero) le ne = forgotten_late
erase_move_of (suc (suc zero)) le ne = absurd (ne refl)
erase_move_of (suc (suc (suc m))) le ne = absurd (omega arith)

erase-Follows :
    (a a' : Attestation)
    → IsCoded (some a)
    → (a.status ≢ attestation_erased) × (a'.status ≡ attestation_erased)
    → Follows erasing (some a) (some a')
erase-Follows a a' coded s = rw s.1 (erase_move_of a.status coded s.0, omega arith)

some-phase-ne : (a : Attestation) → phase (some a) ≢ absent
some-phase-ne a h = phase_of_status-ne a.status h
  where
    phase_of_status-ne : (m : ℕ) → phase_of_status m ≢ absent
    phase_of_status-ne zero e = cc
    phase_of_status-ne (suc zero) e = cc
    phase_of_status-ne (suc (suc m)) e = cc

admin_keeps :
    (n : Name) (w : World) (i : Instruction) {w' : World}
    → event i ≡ administering
    → execute n w i ≡ ok w'
    → w'.attestation ≡ w.attestation
unfolding execute handle_set_issuer_paused handle_set_operator handle_transfer_issuer_authority
    handle_accept_issuer_authority
admin_keeps n w i e h = ground arith

stored-ok : (o : Option Attestation) {a : Attestation} → stored o ≡ ok a → o ≡ some a
unfolding stored
stored-ok o h = ground arith

Follows-by :
    (e : Event) {o o' p p' : Option Attestation} → o ≡ p → p' ≡ o' → Follows e p p' → Follows e o o'
Follows-by e eq eq' f = rw (eq, ← eq') f

pub execute-Follows :
    (n : Name) (w : World) (i : Instruction) {w' : World}
    → IsCoded w.attestation
    → execute n w i ≡ ok w'
    → Follows (event i) w.attestation w'.attestation
unfolding execute
execute-Follows n w (issue signer bump d now) coded h =
    let (_, _, h) = >>=-ok (expect (d.schema_id == n.schema_id)) _ h in
    let (_, f, h) = >>=-ok (expect (is_free w.attestation)) _ h in
    let (r, e, h) =
      >>=-ok (handle_issue_attestation w.issuer n.issuer_key signer n.subject bump d now) _ h in
    Follows-by _ refl (ap (λ v. v.attestation) (ok-inj _ refl h)) (
      issue-Follows w.attestation r.1 (expect_inv (is_free w.attestation) f)
        (issue_move w.issuer n.issuer_key signer n.subject bump d now e))
execute-Follows n w (update signer d now) coded h =
    let (a, f, h) = >>=-ok (stored w.attestation) _ h in
    let (a', e, h) = >>=-ok (handle_update_attestation w.issuer n.issuer_key a signer d now) _ h in
    Follows-by _ (stored-ok w.attestation f) (ap (λ v. v.attestation) (ok-inj _ refl h))
      (update-Follows a a' (update_move w.issuer n.issuer_key a signer d now e))
execute-Follows n w (revoke signer) coded h =
    let (a, f, h) = >>=-ok (stored w.attestation) _ h in
    let (a', e, h) = >>=-ok (handle_revoke_attestation w.issuer n.issuer_key a signer) _ h in
    Follows-by _ (stored-ok w.attestation f) (ap (λ v. v.attestation) (ok-inj _ refl h))
      (revoke-Follows a a' (revoke_move w.issuer n.issuer_key a signer e))
execute-Follows n w (erase signer) coded h =
    let (a, f, h) = >>=-ok (stored w.attestation) _ h in
    let (a', e, h) = >>=-ok (handle_erase_attestation w.issuer n.issuer_key a signer) _ h in
    Follows-by _ (stored-ok w.attestation f) (ap (λ v. v.attestation) (ok-inj _ refl h)) (
      erase-Follows a a' (subst IsCoded (stored-ok w.attestation f) coded)
        (erase_move w.issuer n.issuer_key a signer e))
execute-Follows n w (close signer rent_recipient) coded h =
    let (a, f, h) = >>=-ok (stored w.attestation) _ h in
    let (_, e, h) =
      >>=-ok (handle_close_attestation w.issuer n.issuer_key a signer rent_recipient) _ h in
    Follows-by _ (stored-ok w.attestation f) (ap (λ v. v.attestation) (ok-inj _ refl h))
      (closed (some-phase-ne a), tt)
execute-Follows n w (set_paused signer paused) coded h =
    Follows-by _ refl (sym (admin_keeps n w (set_paused signer paused) refl h))
      (administered, coded)
execute-Follows n w (set_operator signer operator) coded h =
    Follows-by _ refl (sym (admin_keeps n w (set_operator signer operator) refl h))
      (administered, coded)
execute-Follows n w (transfer_authority signer new) coded h =
    Follows-by _ refl (sym (admin_keeps n w (transfer_authority signer new) refl h))
      (administered, coded)
execute-Follows n w (accept_authority signer) coded h =
    Follows-by _ refl (sym (admin_keeps n w (accept_authority signer) refl h)) (administered, coded)
