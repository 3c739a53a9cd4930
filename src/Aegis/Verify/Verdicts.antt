-- ===== src/Aegis/Verify/Verdicts.antt =====
-- When a verdict is positive, and what a negative one says (programs/aegis/src/instructions/verify.rs).
mod Tests
use mathlib.Core.Path.{subst}
use vesta_core.Base.{
  ℕ, ◌≡◌, ◌≢◌, ◌↔◌, ◌⊎◌, inl, inr, refl, Bool, true, false, not, ◌&&◌, ◌||◌, Option, none, some, ℤ,
  pos, ◌≤ℤ◌, ◌<ℤ◌, saturating_sub_i64, arith, ◌==◌, if◌then◌else◌, Slot, Bool-cases, sym, ◌∙◌,
}
use vesta_core.Aegis.State.{
  Pubkey, state_version, Attestation, attestation_active, attestation_is_live,
}
use vesta_core.Aegis.Verify.{
  Verdict, Program, reason_ok, not_found, wrong_issuer, wrong_schema, not_active, out_of_window,
  too_old, fail, judge, judge_content, evaluate,
}

-- The account at the credential's own address holds it, in this program's hands and format.
some-inj : {A : Type 0} {a b : A} → some a ≡ some b → a ≡ b
some-inj h = cc

pub record IsFound (p : Program) (account : Slot Attestation) (issuer subject : Pubkey)
    (schema_id : ℕ) (a : Attestation) : Type 0 where
  pub canonical : account.key ≡ p.attestation_address issuer subject schema_id
  pub owned : account.owner ≡ p.id
  pub full : account.is_empty ≡ false
  pub content : account.content ≡ some a
  pub version : a.version ≡ state_version

-- Not before its start, and before its expiry, where it has them.
pub record IsCurrent (a : Attestation) (now : ℤ) : Type 0 where
  pub started : (a.valid_from ≡ pos 0) ⊎ (a.valid_from ≤ℤ now)
  pub unexpired : (a.expires_at ≡ pos 0) ⊎ (now <ℤ a.expires_at)

-- A limit of 0 or less is none.
abbrev pub IsFresh : Attestation → ℤ → ℤ → Type 0
IsFresh a limit now = (limit ≤ℤ pos 0) ⊎ (saturating_sub_i64 now a.issued_at ≤ℤ limit)

pub record IsAccepted (a : Attestation) (issuer : Pubkey) (schema_id : ℕ) (limit now : ℤ)
    : Type 0 where
  pub from_issuer : a.issuer ≡ issuer
  pub of_schema : a.schema_id ≡ schema_id
  pub active : a.status ≡ attestation_active
  pub current : IsCurrent a now
  pub fresh : IsFresh a limit now

current_lem :
    (a : Attestation) (now : ℤ)
    → a.status ≡ attestation_active
    → attestation_is_live a now ≡ true
    → IsCurrent a now
unfolding attestation_is_live
current_lem a now h l = ground arith

live_lem :
    (a : Attestation) (now : ℤ)
    → a.status ≡ attestation_active
    → IsCurrent a now
    → attestation_is_live a now ≡ true
unfolding attestation_is_live
live_lem a now h l = ground arith

judge_ok :
    (a : Attestation) (issuer : Pubkey) (schema_id : ℕ) (limit now : ℤ)
    → (judge a issuer schema_id limit now).ok ≡ true
    → (a.version ≡ state_version) × IsAccepted a issuer schema_id limit now
unfolding judge fail
judge_ok a issuer schema_id limit now h = ground arith

judge_complete :
    (a : Attestation) (issuer : Pubkey) (schema_id : ℕ) (limit now : ℤ)
    → a.version ≡ state_version
    → IsAccepted a issuer schema_id limit now
    → (judge a issuer schema_id limit now).ok ≡ true
unfolding judge fail
judge_complete a issuer schema_id limit now v h = ground arith

-- The credential that a positive verdict is about.
pub record IsVerified (p : Program) (account : Slot Attestation) (issuer subject : Pubkey)
    (schema_id : ℕ) (limit now : ℤ) : Type 0 where
  pub attestation : Attestation
  pub found : IsFound p account issuer subject schema_id attestation
  pub accepted : IsAccepted attestation issuer schema_id limit now

judge_foreign :
    (a : Attestation) (issuer : Pubkey) (schema_id : ℕ) (limit now : ℤ)
    → a.version ≢ state_version
    → judge a issuer schema_id limit now ≡ fail not_found
unfolding judge
judge_foreign a issuer schema_id limit now h = ground arith

-- A verdict is the credential's own, or the account does not hold it.
abbrev Outcome : Program → Slot Attestation → Pubkey → Pubkey → ℕ → ℤ → ℤ → Verdict → Type 0
Outcome p account issuer subject schema_id limit now v =
    ((a : Attestation) × IsFound p account issuer subject schema_id a
      × (v ≡ judge a issuer schema_id limit now))
    ⊎ ((v ≡ fail not_found)
        × ((a : Attestation) → IsFound p account issuer subject schema_id a → ⊥))

evaluate_content :
    (p : Program) (account : Slot Attestation) (issuer subject : Pubkey) (schema_id : ℕ)
    (limit now : ℤ) (c : Option Attestation)
    → account.key ≡ p.attestation_address issuer subject schema_id
    → account.owner ≡ p.id
    → account.is_empty ≡ false
    → account.content ≡ c
    → Outcome p account issuer subject schema_id limit now
        (judge_content c issuer schema_id limit now)
evaluate_content p account issuer subject schema_id limit now none k o f e =
    inr (refl, λ a found. cc)
evaluate_content p account issuer subject schema_id limit now (some a) k o f e =
    elim (Bool-cases (a.version == state_version)) [
      | inl v ↦ inl (
        a,
        record { canonical = k; owned = o; full = f; content = e; version = ground arith },
        refl,
      )
      | inr v ↦ inr (
        judge_foreign a issuer schema_id limit now (ground arith),
        λ b found. other b (some-inj (sym e ∙ found.content)) found.version v,
      )
    ]
  where
    other :
        (b : Attestation)
        → a ≡ b
        → b.version ≡ state_version
        → (a.version == state_version) ≡ false
        → ⊥
    other b eq h h' = ground arith

evaluate_account :
    (p : Program) (account : Slot Attestation) (issuer subject : Pubkey) (schema_id : ℕ)
    (limit now : ℤ)
    → let v = evaluate p account issuer subject schema_id limit now in
      let key = p.attestation_address issuer subject schema_id in
      ((account.key ≡ key)
        × (account.owner ≡ p.id)
        × (account.is_empty ≡ false)
        × (v ≡ judge_content account.content issuer schema_id limit now))
      ⊎ ((v ≡ fail not_found)
          × ((account.key ≢ key) ⊎ ((account.owner ≢ p.id) ⊎ (account.is_empty ≡ true))))
unfolding evaluate
evaluate_account p account issuer subject schema_id limit now = ground arith

evaluate_cases :
    (p : Program) (account : Slot Attestation) (issuer subject : Pubkey) (schema_id : ℕ)
    (limit now : ℤ)
    → Outcome p account issuer subject schema_id limit now
        (evaluate p account issuer subject schema_id limit now)
evaluate_cases p account issuer subject schema_id limit now =
    elim (evaluate_account p account issuer subject schema_id limit now) [
      | inl (k, o, f, e) ↦
          rw e (
            evaluate_content p account issuer subject schema_id limit now account.content k o f
              refl)
      | inr (e, h) ↦ inr (e, λ a found. nowhere a found h)
    ]
  where
    nowhere :
        (a : Attestation)
        → IsFound p account issuer subject schema_id a
        → ((account.key ≢ p.attestation_address issuer subject schema_id)
            ⊎ ((account.owner ≢ p.id) ⊎ (account.is_empty ≡ true)))
        → ⊥
    nowhere a found h = ground arith

-- What each refusal says of the account and of the credential in it.
pub data IsRefused (p : Program) (account : Slot Attestation) (issuer subject : Pubkey)
    (schema_id : ℕ) (limit now : ℤ) : ℕ → Type 0 where
  missing :
      ((a : Attestation) → IsFound p account issuer subject schema_id a → ⊥)
      → IsRefused p account issuer subject schema_id limit now not_found
  other_issuer :
      (a : Attestation)
      → IsFound p account issuer subject schema_id a
      → a.issuer ≢ issuer
      → IsRefused p account issuer subject schema_id limit now wrong_issuer
  other_schema :
      (a : Attestation)
      → IsFound p account issuer subject schema_id a
      → a.schema_id ≢ schema_id
      → IsRefused p account issuer subject schema_id limit now wrong_schema
  withdrawn :
      (a : Attestation)
      → IsFound p account issuer subject schema_id a
      → a.status ≢ attestation_active
      → IsRefused p account issuer subject schema_id limit now not_active
  early_or_late :
      (a : Attestation)
      → IsFound p account issuer subject schema_id a
      → a.status ≡ attestation_active
      → (IsCurrent a now → ⊥)
      → IsRefused p account issuer subject schema_id limit now out_of_window
  stale :
      (a : Attestation)
      → IsFound p account issuer subject schema_id a
      → IsCurrent a now
      → (IsFresh a limit now → ⊥)
      → IsRefused p account issuer subject schema_id limit now too_old

judge_fail :
    (a : Attestation) (issuer : Pubkey) (schema_id : ℕ) (limit now : ℤ)
    → a.version ≡ state_version
    → (judge a issuer schema_id limit now).ok ≡ false
    → let code = (judge a issuer schema_id limit now).reason_code in
      ((a.issuer ≢ issuer) × (code ≡ wrong_issuer))
      ⊎ (((a.schema_id ≢ schema_id) × (code ≡ wrong_schema))
          ⊎ (((a.status ≢ attestation_active) × (code ≡ not_active))
              ⊎ (((a.status ≡ attestation_active)
                    × (attestation_is_live a now ≡ false)
                    × (code ≡ out_of_window))
                  ⊎ ((attestation_is_live a now ≡ true)
                      × (a.status ≡ attestation_active)
                      × (IsFresh a limit now → ⊥)
                      × (code ≡ too_old)))))
unfolding judge fail
judge_fail a issuer schema_id limit now v h = ground arith

same_account :
    {p : Program} {account : Slot Attestation} {issuer subject : Pubkey} {schema_id : ℕ}
    {a b : Attestation}
    → IsFound p account issuer subject schema_id a
    → IsFound p account issuer subject schema_id b
    → a ≡ b
same_account f g = some-inj (sym f.content ∙ g.content)

fail-ok : (code : ℕ) → (fail code).ok ≡ true → ⊥
unfolding fail
fail-ok code h = cc

pub verify_ok :
    (p : Program) (account : Slot Attestation) (issuer subject : Pubkey) (schema_id : ℕ)
    (limit now : ℤ)
    → (evaluate p account issuer subject schema_id limit now).ok ≡ true
    → IsVerified p account issuer subject schema_id limit now
verify_ok p account issuer subject schema_id limit now h =
    elim (evaluate_cases p account issuer subject schema_id limit now) [
      | inl (a, f, e) ↦ record {
        attestation = a;
        found = f;
        accepted = (judge_ok a issuer schema_id limit now (subst (λ v. v.ok ≡ true) e h)).1;
      }
      | inr (e, f) ↦ absurd (fail-ok not_found (subst (λ v. v.ok ≡ true) e h))
    ]

pub verify_complete :
    (p : Program) (account : Slot Attestation) (issuer subject : Pubkey) (schema_id : ℕ)
    (limit now : ℤ)
    → IsVerified p account issuer subject schema_id limit now
    → (evaluate p account issuer subject schema_id limit now).ok ≡ true
verify_complete p account issuer subject schema_id limit now v =
    elim (evaluate_cases p account issuer subject schema_id limit now) [
      | inl (a, f, e) ↦
          subst (λ r. r.ok ≡ true) (sym e)
            (judge_complete a issuer schema_id limit now f.version (
              subst (λ b. IsAccepted b issuer schema_id limit now) (same_account v.found f)
                v.accepted))
      | inr (e, f) ↦ absurd (f v.attestation v.found)
    ]

-- A verdict is positive exactly if the account at the address derived from the issuer, the subject and
-- the schema is the program's and holds a credential in the current format, of that issuer and schema,
-- which is active, in its validity window at the clock, and no older than the limit if there is one.
pub verify_iff :
    (p : Program) (account : Slot Attestation) (issuer subject : Pubkey) (schema_id : ℕ)
    (limit now : ℤ)
    → ((evaluate p account issuer subject schema_id limit now).ok ≡ true)
      ↔ IsVerified p account issuer subject schema_id limit now
verify_iff p account issuer subject schema_id limit now = (
  verify_ok p account issuer subject schema_id limit now,
  verify_complete p account issuer subject schema_id limit now,
)

refused_as :
    (p : Program) (account : Slot Attestation) (subject : Pubkey) (a : Attestation)
    (issuer : Pubkey) (schema_id : ℕ) (limit now : ℤ)
    → IsFound p account issuer subject schema_id a
    → (judge a issuer schema_id limit now).ok ≡ false
    → IsRefused p account issuer subject schema_id limit now
        (judge a issuer schema_id limit now).reason_code
refused_as p account subject a issuer schema_id limit now f h =
    elim (judge_fail a issuer schema_id limit now f.version h) [
      | inl (n, c) ↦ rw c (other_issuer a f n)
      | inr (inl (n, c)) ↦ rw c (other_schema a f n)
      | inr (inr (inl (n, c))) ↦ rw c (withdrawn a f n)
      | inr (inr (inr (inl (s, n, c)))) ↦
          rw c (early_or_late a f s (λ w. contradict (live_lem a now s w) n))
      | inr (inr (inr (inr (l, s, n, c)))) ↦ rw c (stale a f (current_lem a now s l) n)
    ]
  where
    contradict : {b : Bool} → b ≡ true → b ≡ false → ⊥
    contradict h h' = cc

missing_code :
    {p : Program} {account : Slot Attestation} {issuer subject : Pubkey} {schema_id : ℕ}
    {limit now : ℤ}
    → ((a : Attestation) → IsFound p account issuer subject schema_id a → ⊥)
    → IsRefused p account issuer subject schema_id limit now (fail not_found).reason_code
unfolding fail
missing_code f = missing f

-- A negative verdict's reason code says what is wrong: 1, no credential in the current format is at the
-- canonical address in the program's hands; 2, it is another issuer's; 3, it is of another schema; 4, it
-- is not active; 5, it is active and out of its validity window; 9, it is in its window and older than
-- the limit.
pub verify_error :
    (p : Program) (account : Slot Attestation) (issuer subject : Pubkey) (schema_id : ℕ)
    (limit now : ℤ)
    → (evaluate p account issuer subject schema_id limit now).ok ≡ false
    → IsRefused p account issuer subject schema_id limit now
        (evaluate p account issuer subject schema_id limit now).reason_code
verify_error p account issuer subject schema_id limit now h =
    elim (evaluate_cases p account issuer subject schema_id limit now) [
      | inl (a, f, e) ↦ rw e (
          refused_as p account subject a issuer schema_id limit now f
            (subst (λ v. v.ok ≡ false) e h))
      | inr (e, f) ↦ rw e (missing_code f)
    ]
