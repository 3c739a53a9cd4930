-- ===== src/Merchants/Trust/Degrade.antt =====
-- What a crank of a merchant's accreditation does to its issuance, against the credential registry
-- (programs/vesta-core/src/instructions/merchant_trust.rs, programs/aegis/src/instructions/accreditation.rs).
mod Tests
use mathlib.Core.Path.{subst}
use vesta_core.Base.{
  ℕ, ◌≡◌, ◌≢◌, ◌⊎◌, inl, inr, refl, sym, ◌∙◌, Bool, true, false, ◌||◌, not, Option, none, some, ℤ,
  pos, eqb_ℤ, leb_ℤ, ◌≤ℤ◌, ◌<ℤ◌, ◌-ℤ◌, negsuc, i64_max, in_i64, ◌&&◌, checked_sub_i64, ◌==◌, arith,
  if◌then◌else◌, Result, ok, ◌>>=◌, ◌>>◌, require, Slot, Bool-cases, ==-self, eq→==, ==→eq,
  eq_of_parts,
}
use vesta_core.Aegis.State.{TrustRoot, Accreditation}
use vesta_core.Aegis.Verify.{Verdict}
use vesta_core.Aegis.Registry.{Registry, IsDeployed, read_verdict-own}
use vesta_core.Aegis.Accreditation.{handle_verify_accreditation}
use vesta_core.Aegis.Accreditation.Edges.{IsTrusted, IsEdge, accreditation_iff}
use vesta_core.Vesta.Constants.{Pubkey, issue_normal}
use vesta_core.Vesta.Error.{VestaError, conversion_failed, aegis_program_mismatch}
use vesta_core.Vesta.Merchant.{Config, Merchant}
use vesta_core.Vesta.Assurance.{MerchantTrust}
use vesta_core.Earn.{earn_guards}
use vesta_core.Earn.Gate.{earn_guards_iff}
use vesta_core.Merchants.Trust.{
  is_valid_target, elapsed, failing_from, apply_verdict, handle_reverify_merchant,
}

-- The accounts of a crank are the ones that the anchor's root and issuer derive.
pub record IsPinned (aegis : Registry VestaError) (t : MerchantTrust) (trust_root : Slot TrustRoot)
    (accreditation : Slot Accreditation) : Type 0 where
  pub root_pinned :
      trust_root.key ≡ (aegis.program t.aegis_program).trust_root_address t.accreditation_root
  pub edge_pinned :
      accreditation.key
      ≡ (aegis.program t.aegis_program).accreditation_address t.accreditation_root t.subject_issuer

-- The registry's verdict that the crank asks for.
abbrev pub verdict_of :
    Registry VestaError → MerchantTrust → Slot TrustRoot → Slot Accreditation → ℤ → Verdict
verdict_of aegis t trust_root accreditation now =
    handle_verify_accreditation (aegis.program t.aegis_program) trust_root accreditation
      t.accreditation_root t.subject_issuer t.required_schema now

-- The crank applies the registry's verdict.
crank_lem :
    (aegis : Registry VestaError) (m : Merchant) (t : MerchantTrust) (trust_root : Slot TrustRoot)
    (accreditation : Slot Accreditation) (now : ℤ)
    → IsDeployed aegis t.aegis_program
    → IsPinned aegis t trust_root accreditation
    → let a =
        apply_verdict t m.issue_status (verdict_of aegis t trust_root accreditation now) now in
      handle_reverify_merchant aegis m t trust_root accreditation t.aegis_program now
      ≡ ok (record m { issue_status = a.0 }, a.1)
unfolding handle_reverify_merchant
crank_lem aegis m t trust_root accreditation now d p =
    rw
      (
        ==-self t.aegis_program,
        eq→== _ _ p.root_pinned,
        eq→== _ _ p.edge_pinned,
        d.verifies_accreditations trust_root accreditation t.accreditation_root t.subject_issuer
            t.required_schema now,
        read_verdict-own t.aegis_program (verdict_of aegis t trust_root accreditation now)
            conversion_failed aegis_program_mismatch,
      )
      refl

-- The merchant's issuer is accredited, at the clock, by the anchor's root for its schema.
abbrev pub IsAccredited :
    Registry VestaError → MerchantTrust → Slot TrustRoot → Slot Accreditation → ℤ → Type 0
IsAccredited aegis t trust_root accreditation now =
    ((r : TrustRoot) × IsTrusted (aegis.program t.aegis_program) trust_root t.accreditation_root r)
    × ((a : Accreditation) × IsEdge (aegis.program t.aegis_program) accreditation
          t.accreditation_root t.subject_issuer t.required_schema now a)

-- What a crank leaves of the posture and of the streak of failures, where the issuer is accredited.
pub record IsRestored (t' : MerchantTrust) (status : ℕ) (now : ℤ) : Type 0 where
  pub normal : status ≡ issue_normal
  pub healthy : t'.failing_since ≡ pos 0
  pub seen : t'.last_verified_at ≡ now

-- The seconds from `start` to `now`, and none if their difference is no `i64`.
abbrev pub IsAge : ℤ → ℤ → ℤ → Type 0
IsAge now start age =
    ((negsuc i64_max ≤ℤ now -ℤ start) × (now -ℤ start ≤ℤ pos i64_max) × (age ≡ now -ℤ start))
    ⊎ (((now -ℤ start <ℤ negsuc i64_max) ⊎ (pos i64_max <ℤ now -ℤ start)) × (age ≡ pos 0))

-- And where it is not: the streak goes on from the clock of its first failure, and the posture follows
-- its age.
pub record IsDegrading (t t' : MerchantTrust) (old status : ℕ) (now : ℤ) : Type 0 where
  pub since :
      ((t.failing_since ≡ pos 0) × (t'.failing_since ≡ now))
      ⊎ ((t.failing_since ≢ pos 0) × (t'.failing_since ≡ t.failing_since))
  pub unseen : t'.last_verified_at ≡ t.last_verified_at
  pub age : ℤ
  pub aged : IsAge now t'.failing_since age
  pub posture :
      ((t.grace_secs ≤ℤ age) × (status ≡ t.degrade_target))
      ⊎ ((age <ℤ t.grace_secs) × (status ≡ old))

-- The same in the code's terms.
record IsFailing (t t' : MerchantTrust) (old status : ℕ) (now : ℤ) : Type 0 where
  since : t'.failing_since ≡ failing_from t now
  unseen : t'.last_verified_at ≡ t.last_verified_at
  posture :
      ((t.grace_secs ≤ℤ elapsed now (failing_from t now)) × (status ≡ t.degrade_target))
      ⊎ ((leb_ℤ t.grace_secs (elapsed now (failing_from t now)) ≡ false) × (status ≡ old))

healthy_lem :
    (t : MerchantTrust) (old : ℕ) (v : Verdict) (now : ℤ)
    → v.ok ≡ true
    → IsRestored (apply_verdict t old v now).1 (apply_verdict t old v now).0 now
unfolding apply_verdict
healthy_lem t old v now h = rw h (record { normal = refl; healthy = refl; seen = refl })

posture_cases :
    (grace e : ℤ) (target old : ℕ)
    → let status = if leb_ℤ grace e then target else old in
      ((grace ≤ℤ e) × (status ≡ target)) ⊎ ((leb_ℤ grace e ≡ false) × (status ≡ old))
posture_cases grace e target old = ground arith

failed_verdict :
    (t : MerchantTrust) (old : ℕ) (v : Verdict) (now : ℤ)
    → v.ok ≡ false
    → (apply_verdict t old v now).1 ≡ record t { failing_since = failing_from t now }
unfolding apply_verdict
failed_verdict t old v now h = rw h refl

failing_lem :
    (t : MerchantTrust) (old : ℕ) (v : Verdict) (now : ℤ)
    → v.ok ≡ false
    → IsFailing t (apply_verdict t old v now).1 old (apply_verdict t old v now).0 now
unfolding apply_verdict
failing_lem t old v now h = rw h (record {
  since = refl;
  unseen = refl;
  posture = posture_cases t.grace_secs (elapsed now (failing_from t now)) t.degrade_target old;
})

not_ok : {b : Bool} {P : Type 0} → (b ≡ true → P) → (P → ⊥) → b ≡ false
not_ok {b} f n = elim (Bool-cases b) [ inl t ↦ absurd (n (f t)) | inr h ↦ h ]

failing_from_start :
    (t : MerchantTrust) (now : ℤ) → t.failing_since ≡ pos 0 → failing_from t now ≡ now
unfolding failing_from
failing_from_start t now h = rw h refl

failing_from_kept :
    (t : MerchantTrust) (now : ℤ) → t.failing_since ≢ pos 0 → failing_from t now ≡ t.failing_since
unfolding failing_from
failing_from_kept t now ne = elim (Bool-cases (eqb_ℤ t.failing_since (pos 0))) [
  | inl e ↦ absurd (ne (eq_of_parts t.failing_since (pos 0) (==→eq _ _ e)))
  | inr e ↦ rw e refl
]

age_cases :
    (d : ℤ)
    → let age : ℤ = elim (if in_i64 d then some d else none) [ none ↦ pos 0 | some secs ↦ secs ] in
      ((negsuc i64_max ≤ℤ d) × (d ≤ℤ pos i64_max) × (age ≡ d))
      ⊎ (((d <ℤ negsuc i64_max) ⊎ (pos i64_max <ℤ d)) × (age ≡ pos 0))
age_cases d = ground arith

elapsed-IsAge : (now start : ℤ) → IsAge now start (elapsed now start)
elapsed-IsAge now start = age_cases (now -ℤ start)

differs : (a b : ℤ) → eqb_ℤ a b ≡ false → a ≢ b
differs a b h z = ground arith

late : (grace age : ℤ) → leb_ℤ grace age ≡ false → age <ℤ grace
late grace age h = ground arith

IsFailing-IsDegrading :
    (t t' : MerchantTrust) (old status : ℕ) (now : ℤ)
    → IsFailing t t' old status now
    → IsDegrading t t' old status now
IsFailing-IsDegrading t t' old status now f = record {
  since = elim (Bool-cases (eqb_ℤ t.failing_since (pos 0))) [
    | inl e ↦
        let start = eq_of_parts t.failing_since (pos 0) (==→eq _ _ e) in
        inl (start, f.since ∙ failing_from_start t now start)
    | inr e ↦
        let going = differs t.failing_since (pos 0) e in
        inr (going, f.since ∙ failing_from_kept t now going)
  ];
  unseen = f.unseen;
  age = elapsed now (failing_from t now);
  aged = rw (f.since) (elapsed-IsAge now (failing_from t now));
  posture = elim f.posture [
    | inl p ↦ inl p
    | inr (n, kept) ↦ inr (late t.grace_secs (elapsed now (failing_from t now)) n, kept)
  ];
}

-- A crank on the accounts that the anchor derives, against a deployed registry, goes through at any
-- time and by anyone. If the merchant's issuer is accredited then, issuance is normal after it and the
-- streak of failures is over. If not, a streak that has started keeps its start, else it starts at this
-- clock; and the posture is the degrade target if the seconds since the start are no fewer than the grace,
-- and what it was before if they are. An unrepresentable difference of the clocks counts as 0 seconds.
pub crank_outcome :
    (aegis : Registry VestaError) (m : Merchant) (t : MerchantTrust) (trust_root : Slot TrustRoot)
    (accreditation : Slot Accreditation) (now : ℤ)
    → IsDeployed aegis t.aegis_program
    → IsPinned aegis t trust_root accreditation
    → (status : ℕ) × (t' : MerchantTrust) × (handle_reverify_merchant aegis m t trust_root
          accreditation t.aegis_program now
        ≡ ok (record m { issue_status = status }, t'))
      × ((IsAccredited aegis t trust_root accreditation now × IsRestored t' status now)
          ⊎ ((IsAccredited aegis t trust_root accreditation now → ⊥)
              × IsDegrading t t' m.issue_status status now))
crank_outcome aegis m t trust_root accreditation now d p =
    let v = verdict_of aegis t trust_root accreditation now in
    let a = apply_verdict t m.issue_status v now in
    let iff =
      accreditation_iff (aegis.program t.aegis_program) trust_root accreditation
        t.accreditation_root t.subject_issuer t.required_schema now in
    (
      a.0,
      a.1,
      crank_lem aegis m t trust_root accreditation now d p,
      elim (Bool-cases v.ok) [
        | inl h ↦ inl (iff.0 h, healthy_lem t m.issue_status v now h)
        | inr h ↦ inr (
          (λ e. contradict (iff.1 e) h),
          IsFailing-IsDegrading t a.1 m.issue_status a.0 now (failing_lem t m.issue_status v now h),
        )
      ],
    )
  where
    contradict : {b : Bool} → b ≡ true → b ≡ false → ⊥
    contradict h h' = cc

-- A crank on an issuer that is not accredited fails, and starts or keeps the streak.
fails :
    (aegis : Registry VestaError) (m : Merchant) (t : MerchantTrust) (trust_root : Slot TrustRoot)
    (accreditation : Slot Accreditation) (now : ℤ)
    → IsDeployed aegis t.aegis_program
    → IsPinned aegis t trust_root accreditation
    → (IsAccredited aegis t trust_root accreditation now → ⊥)
    → (status : ℕ) × (handle_reverify_merchant aegis m t trust_root accreditation t.aegis_program
          now
        ≡ ok (record m { issue_status = status }, record t { failing_since = failing_from t now }))
      × IsFailing t (record t { failing_since = failing_from t now }) m.issue_status status now
fails aegis m t trust_root accreditation now d p n =
    let v = verdict_of aegis t trust_root accreditation now in
    let iff =
      accreditation_iff (aegis.program t.aegis_program) trust_root accreditation
        t.accreditation_root t.subject_issuer t.required_schema now in
    let h = not_ok iff.0 n in
    let same = failed_verdict t m.issue_status v now h in
    (
      (apply_verdict t m.issue_status v now).0,
      subst
          (λ t'.
            handle_reverify_merchant aegis m t trust_root accreditation t.aegis_program now
            ≡ ok (record m { issue_status = (apply_verdict t m.issue_status v now).0 }, t'))
          same (crank_lem aegis m t trust_root accreditation now d p),
      subst (λ t'. IsFailing t t' m.issue_status (apply_verdict t m.issue_status v now).0 now) same
          (failing_lem t m.issue_status v now h),
    )

overdue :
    (t t' : MerchantTrust) (old status : ℕ) (now start : ℤ)
    → failing_from t now ≡ start
    → t.grace_secs ≤ℤ elapsed now start
    → IsFailing t t' old status now
    → status ≡ t.degrade_target
overdue t t' old status now start e g f = elim f.posture [
  | inl (_, s) ↦ s
  | inr (n, _) ↦ absurd (on_time t.grace_secs (elapsed now start) g (rw (← e) n))
]
  where
    on_time : (grace e : ℤ) → grace ≤ℤ e → leb_ℤ grace e ≡ false → ⊥
    on_time grace e le h = ground arith

frozen_guard :
    (config : Config) (m : Merchant) (signer amount : ℕ)
    → is_valid_target m.issue_status ≡ true
    → earn_guards config m signer amount ≢ ok tt
frozen_guard config m signer amount v h =
    invalid ((earn_guards_iff config m signer amount).0 h).normal v
  where
    invalid : m.issue_status ≡ issue_normal → is_valid_target m.issue_status ≡ true → ⊥
    invalid n w = ground arith

-- Where the issuer of a merchant without a streak of failures is not accredited at one crank, at a
-- clock other than 0, nor at a later one when the grace has run out since, both on the accounts that
-- the anchor derives and against a deployed registry: both cranks go through, the posture after them
-- is the anchor's degrade target, if that is one of the two, and no key may earn any amount for the
-- merchant then.
pub unaccredited_freezes :
    (aegis : Registry VestaError) (m : Merchant) (t : MerchantTrust) (root₁ root₂ : Slot TrustRoot)
    (edge₁ edge₂ : Slot Accreditation) (start later : ℤ) (config : Config) (signer amount : ℕ)
    → IsDeployed aegis t.aegis_program
    → IsPinned aegis t root₁ edge₁
    → IsPinned aegis t root₂ edge₂
    → t.failing_since ≡ pos 0
    → start ≢ pos 0
    → t.grace_secs ≤ℤ elapsed later start
    → is_valid_target t.degrade_target ≡ true
    → (IsAccredited aegis t root₁ edge₁ start → ⊥)
    → (IsAccredited aegis t root₂ edge₂ later → ⊥)
    → (r₁ r₂ : Merchant × MerchantTrust) × (handle_reverify_merchant aegis m t root₁ edge₁
          t.aegis_program start
        ≡ ok r₁)
      × (handle_reverify_merchant aegis r₁.0 r₁.1 root₂ edge₂ t.aegis_program later ≡ ok r₂)
      × (r₂.0.issue_status ≡ t.degrade_target)
      × (earn_guards config r₂.0 signer amount ≢ ok tt)
unaccredited_freezes aegis m t root₁ root₂ edge₁ edge₂ start later config signer amount d p₁ p₂
      healthy ne grace valid n₁ n₂ =
    let (s₁, e₁, f₁) = fails aegis m t root₁ edge₁ start d p₁ n₁ in
    let t₁ : MerchantTrust = record t { failing_since = failing_from t start } in
    let begun = failing_from_start t start healthy in
    let m₁ : Merchant = record m { issue_status = s₁ } in
    let (s₂, e₂, f₂) =
      fails aegis m₁ t₁ root₂ edge₂ later d
        (record { root_pinned = p₂.root_pinned; edge_pinned = p₂.edge_pinned }) n₂ in
    let kept = failing_from_kept t₁ later (λ z. ne (sym begun ∙ z)) in
    let frozen =
      overdue t₁ (record t₁ { failing_since = failing_from t₁ later }) s₁ s₂ later start
        (kept ∙ begun) grace f₂ in
    (
      (m₁, t₁),
      (record m₁ { issue_status = s₂ }, record t₁ { failing_since = failing_from t₁ later }),
      e₁,
      e₂,
      frozen,
      frozen_guard config (record m₁ { issue_status = s₂ }) signer amount (rw frozen valid),
    )
