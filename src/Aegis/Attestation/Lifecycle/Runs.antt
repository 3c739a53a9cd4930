-- ===== src/Aegis/Attestation/Lifecycle/Runs.antt =====
-- Sequences of the instructions on an issuer and on one of its credentials
-- (programs/aegis/src/instructions/attestation.rs, issuer.rs), as a credential's life.
use mathlib.Core.Path.{subst}
use vesta_core.Base.{
  ◌≡◌, ◌≢◌, refl, sym, ap, ◌∙◌, ◌⊎◌, inl, inr, Bool, true, false, ◌||◌, Option, some, List, [], ◌∷◌,
  ℤ, arith, Result, ok, err, constraint, panic, Slot, Bool-cases, ap,
}
use vesta_core.Aegis.Error.{AegisError}
use vesta_core.Aegis.State.{Attestation, attestation_active}
use vesta_core.Aegis.Attestation.Lifecycle.{
  Name, World, Instruction, execute, settle, run, Phase, active, revoked, erased, Event, closing,
  event, Move, issued, updated, withdrawn, forgotten, forgotten_late, closed, administered, History,
  start, next, phase_of_status, phase, IsCoded,
}
use vesta_core.Aegis.Verify.{Program, VerifyPredicate, evaluate}
use vesta_core.Aegis.Verify.Verdicts.{verify_ok}
use vesta_core.Aegis.Attestation.Lifecycle.Steps.{execute-Follows}

-- The events of the instructions that were not refused.
abbrev pub accepted : Result AegisError World → Event → List Event → List Event
accepted (ok w) e es = e ∷ es
accepted (err code) e es = es
accepted constraint e es = es
accepted panic e es = es

unfoldable pub events : Name → World → List Instruction → List Event
events n w [] = []
events n w (i ∷ is) = accepted (execute n w i) (event i) (events n (settle w (execute n w i)) is)

-- What a run makes of a world is a part of the credential's life.
Lives : Name → World → World → List Event → Type 0
Lives n w w' es = History (phase w.attestation) (phase w'.attestation) es × IsCoded w'.attestation

-- The first instruction, and then the rest of the run.
prepend :
    (n : Name) (w : World) (i : Instruction) (is : List Instruction) (r : Result AegisError World)
    → execute n w i ≡ r
    → IsCoded w.attestation
    → ((v : World) → IsCoded v.attestation → Lives n v (run n v is) (events n v is))
    → Lives n w (run n (settle w r) is) (accepted r (event i) (events n (settle w r) is))
unfolding Lives
prepend n w i is (ok w') e coded rest =
    let (m, coded') = execute-Follows n w i coded e in
    let (tail, coded'') = rest w' coded' in (next m tail, coded'')
prepend n w i is (err code) e coded rest = rest w coded
prepend n w i is constraint e coded rest = rest w coded
prepend n w i is panic e coded rest = rest w coded

-- Any sequence of the instructions on an issuer and on the account of one of its credentials, by any
-- signers and with refusals, is a path of the credential's state machine, whose labels are the events
-- that were not refused: from absent it is only issued, only an active credential is updated or
-- revoked, an active or a revoked one is erased, any but an absent one is closed, and what concerns
-- the issuer leaves its phase. The status stays one of the three.
pub run_follows :
    (n : Name) (w : World) (is : List Instruction)
    → IsCoded w.attestation
    → History (phase w.attestation) (phase (run n w is).attestation) (events n w is)
      × IsCoded (run n w is).attestation
unfolding run events Lives
run_follows n w [] coded = (start, coded)
run_follows n w (i ∷ is) coded =
    prepend n w i is (execute n w i) refl coded (λ v c. run_follows n v is c)

-- A phase in which the credential was withdrawn.
abbrev pub IsDead : Phase → Type 0
IsDead p = (p ≡ revoked) ⊎ (p ≡ erased)

abbrev pub is_closing : Event → Bool
is_closing closing = true
is_closing _ = false

abbrev pub has_closing : List Event → Bool
has_closing [] = false
has_closing (e ∷ es) = is_closing e || has_closing es

Move-IsDead : {e : Event} {p q : Phase} → Move e p q → is_closing e ≡ false → IsDead p → IsDead q
Move-IsDead issued h d = ground arith
Move-IsDead updated h d = ground arith
Move-IsDead withdrawn h d = inl refl
Move-IsDead forgotten h d = inr refl
Move-IsDead forgotten_late h d = inr refl
Move-IsDead (closed ne) h d = cc
Move-IsDead administered h d = d

or_false : (b c : Bool) → (b || c) ≡ false → (b ≡ false) × (c ≡ false)
or_false b c h = ground arith

History-IsDead :
    {p q : Phase} {es : List Event} → History p q es → has_closing es ≡ false → IsDead p → IsDead q
History-IsDead start h d = d
History-IsDead (next {e} {es} m rest) h d =
    let (a, b) = or_false (is_closing e) (has_closing es) h in
    History-IsDead rest b (Move-IsDead m a d)

run-IsDead :
    (n : Name) (w : World) (is : List Instruction)
    → IsCoded w.attestation
    → IsDead (phase w.attestation)
    → has_closing (events n w is) ≡ false
    → IsDead (phase (run n w is).attestation)
run-IsDead n w is coded dead kept = History-IsDead (run_follows n w is coded).0 kept dead

dead_inactive :
    (o : Option Attestation) (a : Attestation)
    → IsDead (phase o)
    → o ≡ some a
    → a.status ≢ attestation_active
dead_inactive o a dead e s =
    alive (sym (ap phase_of_status s)) (subst (λ x. IsDead (phase x)) e dead)
  where
    alive : active ≡ phase_of_status a.status → IsDead (phase_of_status a.status) → ⊥
    alive act (inl d) = cc
    alive act (inr d) = cc

-- A credential that was revoked or erased gets no positive verdict after any further instructions on
-- it and on its issuer, by any signers, unless its account is closed among them: whatever account holds
-- it, whatever is asked of it, with any age limit and at any time.
pub revoked_stays :
    (n : Name) (w : World) (is : List Instruction) (p : Program) (account : Slot Attestation)
    (q : VerifyPredicate) (limit now : ℤ)
    → IsCoded w.attestation
    → IsDead (phase w.attestation)
    → has_closing (events n w is) ≡ false
    → account.content ≡ (run n w is).attestation
    → (evaluate p account q.issuer q.subject q.schema_id limit now).ok ≡ false
revoked_stays n w is p account q limit now coded dead kept e =
    elim (Bool-cases (evaluate p account q.issuer q.subject q.schema_id limit now).ok) [
      | inr h ↦ h
      | inl h ↦
          let v = verify_ok p account q.issuer q.subject q.schema_id limit now h in
          absurd (
            dead_inactive (run n w is).attestation v.attestation (run-IsDead n w is coded dead kept)
              (sym e ∙ v.found.content) v.accepted.active)
    ]
