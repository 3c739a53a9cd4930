-- ===== src/Aegis/Accreditation/Grants.antt =====
-- What a new accreditation permits (programs/aegis/src/instructions/accreditation.rs, state.rs).
mod Tests
use vesta_core.Base.{
  ℕ, suc, ◌≡◌, ◌≤◌, ◌≢◌, refl, ap, sym, Bool, true, false, not, ◌&&◌, ◌||◌, List, [], ◌∷◌, ℤ, pos,
  eqb_ℤ, ltb_ℤ, arith, ◌==◌, leb, length, take, min, contains, if◌then◌else◌, Result, ok, ◌>>=◌,
  require, ok_or, >>=-ok, ok-inj, require_inv, try_from, u8_max, leb→le, ◌∙◌,
}
use vesta_core.Aegis.Error.{
  AegisError, permitted_schemas_required, string_too_long, unauthorized, invalid_expiry,
}
use vesta_core.Aegis.State.{Pubkey, max_permitted_schemas, TrustRoot, Accreditation, permits}
use vesta_core.Aegis.Accreditation.{root_authority, fill, no_schemas, handle_accredit_issuer}

length-fill : (slots schemas : List ℕ) → length (fill slots schemas) ≡ length slots
unfolding fill
length-fill [] schemas = refl
length-fill (slot ∷ slots) [] = refl
length-fill (slot ∷ slots) (schema ∷ schemas) = ap suc (length-fill slots schemas)

take-fill :
    (slots schemas : List ℕ)
    → length schemas ≤ length slots
    → take (length schemas) (fill slots schemas) ≡ schemas
unfolding fill
take-fill slots [] h = refl
take-fill [] (schema ∷ schemas) h = absurd (omega arith)
take-fill (slot ∷ slots) (schema ∷ schemas) h =
    ap (λ xs. schema ∷ xs) (take-fill slots schemas (omega arith))

narrow_inv : {E : Type 0} (e : E) (m : ℕ) {k : ℕ} → ok_or (try_from u8_max m) e ≡ ok k → k ≡ m
narrow_inv e m h = ground arith

permits_filled :
    (a : Accreditation) (schemas : List ℕ) (schema_id : ℕ)
    → a.permitted_schemas ≡ fill no_schemas schemas
    → a.permitted_count ≡ length schemas
    → length schemas ≤ max_permitted_schemas
    → (length schemas == 0) ≡ false
    → permits a schema_id ≡ contains schemas schema_id
unfolding permits
permits_filled a schemas schema_id slots count small some_ =
    rw
      (
        slots,
        count,
        length-fill no_schemas schemas,
        min_small,
        take-fill no_schemas schemas small,
        some_,
      )
      refl
  where
    min_small : min (length schemas) 8 ≡ length schemas
    min_small = omega arith

-- A new accreditation permits exactly the schemas that its root named.
pub accredit_permits :
    (r : TrustRoot) (signer : Pubkey) (bump : ℕ) (subject_issuer : Pubkey) (tier : ℕ)
    (schemas : List ℕ) (jurisdiction : ℕ) (expires_at now : ℤ) {a : Accreditation} (schema_id : ℕ)
    → handle_accredit_issuer r signer bump subject_issuer tier schemas jurisdiction expires_at now
      ≡ ok a
    → permits a schema_id ≡ contains schemas schema_id
unfolding handle_accredit_issuer
accredit_permits r signer bump subject_issuer tier schemas jurisdiction expires_at now schema_id h =
    let (_, _, h) = >>=-ok (root_authority r signer) _ h in
    let (_, _, h) = >>=-ok (require r.active unauthorized) _ h in
    let (_, e1, h) = >>=-ok (require (not (length schemas == 0)) permitted_schemas_required) _ h in
    let (_, e2, h) =
      >>=-ok (require (leb (length schemas) max_permitted_schemas) string_too_long) _ h in
    let (_, _, h) =
      >>=-ok (require (eqb_ℤ expires_at (pos 0) || ltb_ℤ now expires_at) invalid_expiry) _ h in
    let (count, e3, h) = >>=-ok (ok_or (try_from u8_max (length schemas)) string_too_long) _ h in
    let granted = ok-inj _ refl h in
    permits_filled _ schemas schema_id (sym (ap (λ g. g.permitted_schemas) granted))
      (sym (ap (λ g. g.permitted_count) granted) ∙ narrow_inv string_too_long (length schemas) e3)
      (leb→le _ _ (require_inv _ _ e2)) (not_true (require_inv _ _ e1))
  where
    not_true : {b : Bool} → not b ≡ true → b ≡ false
    not_true h = ground arith
