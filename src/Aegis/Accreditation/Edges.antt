-- ===== src/Aegis/Accreditation/Edges.antt =====
-- The verdict on an issuer's accreditation under a trust root
-- (programs/aegis/src/instructions/accreditation.rs).
mod Tests
use vesta_core.Base.{
  ℕ, ◌≡◌, ◌≢◌, ◌↔◌, ◌⊎◌, inl, inr, refl, Bool, true, false, not, ◌&&◌, ◌||◌, Option, none, some, ℤ,
  pos, ◌<ℤ◌, List, contains, take, min, length, arith, ◌==◌, if◌then◌else◌, Slot, Bool-cases, sym,
  ◌∙◌, Result, ok, err, ◌>>=◌, require, >>=-ok,
}
use vesta_core.Aegis.Error.{AegisError}
use vesta_core.Aegis.State.{
  Pubkey, state_version, TrustRoot, Accreditation, accreditation_active, accreditation_revoked,
  accreditation_is_live, permits,
}
use vesta_core.Aegis.Verify.{Verdict, Program, fail}
use vesta_core.Aegis.Accreditation.{
  root_authority, root_is_trusted, judge_accreditation, handle_verify_accreditation,
  handle_revoke_accreditation, handle_set_root_active, handle_accredit_issuer, fill, no_schemas,
}

-- The trust root's account, in this program's hands and format, and not switched off.
pub record IsTrusted (p : Program) (account : Slot TrustRoot) (authority : Pubkey) (r : TrustRoot)
    : Type 0 where
  pub canonical : account.key ≡ p.trust_root_address authority
  pub owned : account.owner ≡ p.id
  pub full : account.is_empty ≡ false
  pub content : account.content ≡ some r
  pub version : r.version ≡ state_version
  pub active : r.active ≡ true

-- What the root granted the issuer, for a schema.
pub record IsGrant (root subject_issuer : Pubkey) (schema_id : ℕ) (now : ℤ) (a : Accreditation)
    : Type 0 where
  pub version : a.version ≡ state_version
  pub of_root : a.root ≡ root
  pub of_issuer : a.subject_issuer ≡ subject_issuer
  pub status : a.status ≡ accreditation_active
  pub unexpired : (a.expires_at ≡ pos 0) ⊎ (now <ℤ a.expires_at)
  pub limited : a.permitted_count ≢ 0
  pub listed :
      contains
        (take (min a.permitted_count (length a.permitted_schemas)) a.permitted_schemas)
        schema_id
      ≡ true

-- The account of the issuer's accreditation under the root.
pub record IsEdge (p : Program) (account : Slot Accreditation) (root subject_issuer : Pubkey)
    (schema_id : ℕ) (now : ℤ) (a : Accreditation) : Type 0 where
  pub canonical : account.key ≡ p.accreditation_address root subject_issuer
  pub owned : account.owner ≡ p.id
  pub full : account.is_empty ≡ false
  pub content : account.content ≡ some a
  pub grant : IsGrant root subject_issuer schema_id now a

abbrev HasEdge : Program → Slot TrustRoot → Slot Accreditation → Pubkey → Pubkey → ℕ → ℤ → Type 0
HasEdge p trust_root accreditation root subject_issuer schema_id now =
    ((r : TrustRoot) × IsTrusted p trust_root root r)
    × ((a : Accreditation) × IsEdge p accreditation root subject_issuer schema_id now a)

edge_shape :
    (p : Program) (trust_root : Slot TrustRoot) (accreditation : Slot Accreditation)
    (root subject_issuer : Pubkey) (schema_id : ℕ) (now : ℤ)
    → (handle_verify_accreditation p trust_root accreditation root subject_issuer schema_id now).ok
      ≡ true
    → (trust_root.key ≡ p.trust_root_address root)
      × (trust_root.owner ≡ p.id)
      × (trust_root.is_empty ≡ false)
      × (root_is_trusted trust_root.content ≡ true)
      × (accreditation.key ≡ p.accreditation_address root subject_issuer)
      × (accreditation.owner ≡ p.id)
      × (accreditation.is_empty ≡ false)
      × ((judge_accreditation accreditation.content root subject_issuer schema_id now).ok ≡ true)
unfolding handle_verify_accreditation fail
edge_shape p trust_root accreditation root subject_issuer schema_id now h = ground arith

edge_ok :
    (p : Program) (trust_root : Slot TrustRoot) (accreditation : Slot Accreditation)
    (root subject_issuer : Pubkey) (schema_id : ℕ) (now : ℤ)
    → trust_root.key ≡ p.trust_root_address root
    → trust_root.owner ≡ p.id
    → trust_root.is_empty ≡ false
    → root_is_trusted trust_root.content ≡ true
    → accreditation.key ≡ p.accreditation_address root subject_issuer
    → accreditation.owner ≡ p.id
    → accreditation.is_empty ≡ false
    → handle_verify_accreditation p trust_root accreditation root subject_issuer schema_id now
      ≡ judge_accreditation accreditation.content root subject_issuer schema_id now
unfolding handle_verify_accreditation fail
edge_ok p trust_root accreditation root subject_issuer schema_id now k o f t k' o' f' = ground arith

grant_lem :
    (a : Accreditation) (root subject_issuer : Pubkey) (schema_id : ℕ) (now : ℤ)
    → (judge_accreditation (some a) root subject_issuer schema_id now).ok ≡ true
    → IsGrant root subject_issuer schema_id now a
unfolding judge_accreditation fail permits accreditation_is_live
grant_lem a root subject_issuer schema_id now h = ground arith

granted :
    (a : Accreditation) (root subject_issuer : Pubkey) (schema_id : ℕ) (now : ℤ)
    → IsGrant root subject_issuer schema_id now a
    → (judge_accreditation (some a) root subject_issuer schema_id now).ok ≡ true
unfolding judge_accreditation fail permits accreditation_is_live
granted a root subject_issuer schema_id now g = ground arith

ungranted :
    (root subject_issuer : Pubkey) (schema_id : ℕ) (now : ℤ)
    → (judge_accreditation none root subject_issuer schema_id now).ok ≡ true
    → ⊥
unfolding judge_accreditation fail
ungranted root subject_issuer schema_id now h = cc

IsEdge-of :
    (p : Program) (account : Slot Accreditation) (root subject_issuer : Pubkey) (schema_id : ℕ)
    (now : ℤ) (c : Option Accreditation)
    → account.content ≡ c
    → account.key ≡ p.accreditation_address root subject_issuer
    → account.owner ≡ p.id
    → account.is_empty ≡ false
    → (judge_accreditation c root subject_issuer schema_id now).ok ≡ true
    → (a : Accreditation) × IsEdge p account root subject_issuer schema_id now a
IsEdge-of p account root subject_issuer schema_id now none e k o f h =
    absurd (ungranted root subject_issuer schema_id now h)
IsEdge-of p account root subject_issuer schema_id now (some a) e k o f h = (
  a,
  record {
    canonical = k;
    owned = o;
    full = f;
    content = e;
    grant = grant_lem a root subject_issuer schema_id now h;
  },
)

trusted_lem :
    (p : Program) (account : Slot TrustRoot) (root : Pubkey) (c : Option TrustRoot)
    → account.content ≡ c
    → account.key ≡ p.trust_root_address root
    → account.owner ≡ p.id
    → account.is_empty ≡ false
    → root_is_trusted c ≡ true
    → (r : TrustRoot) × IsTrusted p account root r
trusted_lem p account root none e k o f h = cc
trusted_lem p account root (some r) e k o f h = (
  r,
  record {
    canonical = k;
    owned = o;
    full = f;
    content = e;
    version = ground arith;
    active = ground arith;
  },
)

trusted_root :
    (r : TrustRoot) → r.version ≡ state_version → r.active ≡ true → root_is_trusted (some r) ≡ true
trusted_root r v a = ground arith

-- The verdict on an issuer's accreditation is positive exactly if the trust root's own account is the
-- program's and holds a root in the current format that is switched on, and the account at the address
-- derived from the root and the issuer is the program's and holds an accreditation of that issuer by
-- that root in the current format, which is active and unexpired, and among whose counted schemas,
-- of which there is at least one, the asked schema is.
pub accreditation_iff :
    (p : Program) (trust_root : Slot TrustRoot) (accreditation : Slot Accreditation)
    (root subject_issuer : Pubkey) (schema_id : ℕ) (now : ℤ)
    → ((handle_verify_accreditation p trust_root accreditation root subject_issuer schema_id now).ok
        ≡ true)
      ↔ (((r : TrustRoot) × IsTrusted p trust_root root r)
          × ((a : Accreditation) × IsEdge p accreditation root subject_issuer schema_id now a))
accreditation_iff p trust_root accreditation root subject_issuer schema_id now = (there, back)
  where
    there :
        (handle_verify_accreditation p trust_root accreditation root subject_issuer schema_id
            now).ok
          ≡ true
        → HasEdge p trust_root accreditation root subject_issuer schema_id now
    there h =
        let (k, o, f, t, k', o', f', j) =
          edge_shape p trust_root accreditation root subject_issuer schema_id now h in
        (
          trusted_lem p trust_root root trust_root.content refl k o f t,
          IsEdge-of p accreditation root subject_issuer schema_id now accreditation.content refl k'
              o' f' j,
        )

    back :
        HasEdge p trust_root accreditation root subject_issuer schema_id now
        → (handle_verify_accreditation p trust_root accreditation root subject_issuer schema_id
            now).ok
          ≡ true
    back ((r, t), (a, e)) =
        rw
          (
            edge_ok p trust_root accreditation root subject_issuer schema_id now t.canonical t.owned
                t.full (rw t.content (trusted_root r t.version t.active)) e.canonical e.owned
                e.full,
            e.content,
          )
          (granted a root subject_issuer schema_id now e.grant)
