-- ===== src/Merchants/Segments/Cache.antt =====
-- What a refresh of one segment does to the whole cache of a customer's verdicts
-- (programs/vesta-core/src/instructions/segmentation.rs, state.rs).
mod Tests
use mathlib.Core.Path.{subst}
use vesta_core.Base.{
  ℕ, zero, suc, ◌+◌, ◌-◌, ◌^◌, ◌≤◌, ◌<◌, ◌<ℤ◌, ◌↔◌, ◌≡◌, ◌≢◌, ◌⊎◌, inl, inr, refl, sym, ap, ◌∙◌,
  Bool, true, false, ◌||◌, ◌&&◌, not, Option, none, some, List, [], ◌∷◌, ℤ, pos, ltb_ℤ, leb, ltb,
  ◌==◌, ==-self, if◌then◌else◌, bit_and, bit_or, u32_max, arith, Result, ok, ◌>>=◌, ◌>>◌, require,
  ok_or, >>=-ok, ok_or-ok, ok-inj, ltb→lt, require_inv, ==→eq, checked_add_i64, Slot,
}
use vesta_core.Vesta.Constants.{Pubkey, max_segments}
use vesta_core.Vesta.Error.{
  VestaError, conversion_failed, aegis_program_mismatch, invalid_segment, overflow,
}
use vesta_core.Vesta.Customer.{
  Segment, MerchantSegments, CustomerEligibility, bit_is_set, is_fresh, satisfies,
}
use vesta_core.Aegis.Registry.{Registry, Reply, IsDeployed, read_verdict, read_verdict-own}
use vesta_core.Aegis.Verify.{Verdict, VerifyPredicate, handle_verify}
use vesta_core.Aegis.Verify.Verdicts.{IsVerified, verify_ok, verify_complete}
use vesta_core.Merchants.Segments.{
  mark, ttl_of, is_outdated, segment_at, RefreshCustomerEligibility,
  handle_refresh_customer_eligibility,
}

all_below : ℕ → (ℕ → Bool) → Bool
all_below zero p = true
all_below (suc n) p = p n && all_below n p

all_below_lem : (n : ℕ) (p : ℕ → Bool) (x : ℕ) → all_below n p ≡ true → x < n → p x ≡ true
unfolding all_below
all_below_lem zero p x h lt = absurd (omega arith)
all_below_lem (suc n) p x h lt = ground (arith, all_below_lem n p x)

-- Marking a bit sets it to the verdict, leaves every other of the eight, and stays in a byte.
same_bool : Bool → Bool → Bool
same_bool true c = c
same_bool false c = not c

marks : ℕ → ℕ → ℕ → Bool → Bool
marks v i j b =
    same_bool (bit_is_set (mark v i b) j) (if i == j then b else bit_is_set v j)
    && ltb (mark v i b) 256

abbrev pair : ℕ → ℕ → ℕ → Bool
pair v i j = marks v i j true && marks v i j false

mark_table : all_below 256 (λ v. all_below 8 (λ i. all_below 8 (pair v i))) ≡ true
unfolding marks mark same_bool all_below
mark_table = refl

byte_marks : (v i j : ℕ) (b : Bool) → v < 256 → i < 8 → j < 8 → marks v i j b ≡ true
byte_marks v i j b lv li lj = pick b (
    all_below_lem 8 (pair v i) j
      (all_below_lem 8 (λ k. all_below 8 (pair v k)) i
        (all_below_lem 256 (λ u. all_below 8 (λ k. all_below 8 (pair u k))) v mark_table lv) li)
      lj)
  where
    pick : (b : Bool) → (marks v i j true && marks v i j false) ≡ true → marks v i j b ≡ true
    pick true h = ground arith
    pick false h = ground arith

-- What marking does to the bits of a byte.
pub record IsMarked (v i : ℕ) (b : Bool) (w : ℕ) : Type 0 where
  pub own : bit_is_set w i ≡ b
  pub others : (j : ℕ) → j < 8 → i ≢ j → bit_is_set w j ≡ bit_is_set v j
  pub byte : w < 256

and_inv : (b c : Bool) → (b && c) ≡ true → (b ≡ true) × (c ≡ true)
and_inv b c h = ground arith

same_inv : (b c : Bool) → same_bool b c ≡ true → b ≡ c
unfolding same_bool
same_inv true c h = sym h
same_inv false true h = cc
same_inv false false h = refl

differ : {i j : ℕ} → i ≢ j → (i == j) ≡ false
differ ne = ground arith

mark_other :
    (v i j : ℕ) (b : Bool)
    → v < 256
    → i < 8
    → j < 8
    → i ≢ j
    → bit_is_set (mark v i b) j ≡ bit_is_set v j
unfolding marks
mark_other v i j b lv li lj ne =
    same_inv _ _ (and_inv _ _ (byte_marks v i j b lv li lj)).0 ∙ (rw (differ ne) refl)

mark_lem : (v i : ℕ) (b : Bool) → v < 256 → i < 8 → IsMarked v i b (mark v i b)
unfolding marks
mark_lem v i b lv li =
    let (s, l) = and_inv _ _ (byte_marks v i i b lv li li) in
    record {
      own = same_inv _ _ s ∙ (rw (==-self i) refl);
      others = λ j lj ne. mark_other v i j b lv li lj ne;
      byte = ltb→lt _ 256 l;
    }

-- The bits that a refresh starts from.
abbrev pub bits_before : RefreshCustomerEligibility → ℕ
bits_before a =
    if is_outdated a.customer_eligibility a.merchant_segments.policy_epoch
    then 0
    else a.customer_eligibility.verdicts

-- A refresh that goes through.
pub record IsRefreshed (aegis : Registry VestaError) (aegis_id : Pubkey)
    (a : RefreshCustomerEligibility) (now : ℤ) (index : ℕ) (c : CustomerEligibility) : Type 0 where
  pub in_range : index < 8
  pub segment : Segment
  pub found : segment_at a.merchant_segments.segments index ≡ ok segment
  pub active : segment.active ≡ true
  pub verdict : Verdict
  pub asked :
      (reply : Reply) × (aegis.verify a.aegis_program a.attestation
          (record { issuer = segment.issuer; subject = a.customer; schema_id = segment.schema_id })
          now
        ≡ ok reply)
      × (read_verdict reply aegis_id conversion_failed aegis_program_mismatch ≡ ok verdict)
  pub program : a.aegis_program ≡ aegis_id
  pub bits : c.verdicts ≡ mark (bits_before a) index verdict.ok
  pub epoch : c.policy_epoch ≡ a.merchant_segments.policy_epoch
  pub expiry : checked_add_i64 now (ttl_of segment) ≡ some c.expires_at

refresh_inv :
    (aegis : Registry VestaError) (aegis_id : Pubkey) (a : RefreshCustomerEligibility) (now : ℤ)
    (index : ℕ) {c : CustomerEligibility}
    → handle_refresh_customer_eligibility aegis aegis_id a now index ≡ ok c
    → IsRefreshed aegis aegis_id a now index c
unfolding handle_refresh_customer_eligibility
refresh_inv aegis aegis_id a now index h =
    let (_, e1, h) = >>=-ok (require (ltb index max_segments) invalid_segment) _ h in
    let (_, e2, h) = >>=-ok (require (a.aegis_program == aegis_id) aegis_program_mismatch) _ h in
    let (seg, e3, h) = >>=-ok (segment_at a.merchant_segments.segments index) _ h in
    let (_, e4, h) = >>=-ok (require seg.active invalid_segment) _ h in
    let (reply, e5, h) =
      >>=-ok
        (aegis.verify a.aegis_program a.attestation
          (record { issuer = seg.issuer; subject = a.customer; schema_id = seg.schema_id }) now)
        _ h in
    let (verdict, e6, h) =
      >>=-ok (read_verdict reply aegis_id conversion_failed aegis_program_mismatch) _ h in
    let (expires_at, e7, h) = >>=-ok (ok_or (checked_add_i64 now (ttl_of seg)) overflow) _ h in
    let made = ok-inj _ h refl in
    record {
      in_range = ltb→lt index 8 (require_inv _ _ e1);
      segment = seg;
      found = e3;
      active = require_inv _ _ e4;
      verdict = verdict;
      asked = (reply, e5, e6);
      program = ==→eq _ _ (require_inv _ _ e2);
      bits = ap (λ x. x.verdicts) made;
      epoch = ap (λ x. x.policy_epoch) made;
      expiry = ok_or-ok _ overflow e7 ∙ ap (λ x. some x.expires_at) (sym made);
    }

-- The customer's cache at this merchant is of its present segments, and no bit past the eighth is set.
pub record IsCurrentCache (a : RefreshCustomerEligibility) : Type 0 where
  pub known : is_outdated a.customer_eligibility a.merchant_segments.policy_epoch ≡ false
  pub byte : a.customer_eligibility.verdicts < 256

satisfies_at :
    {E : Type 0} (c : CustomerEligibility) (j epoch : ℕ) (now : ℤ)
    → j < 8
    → c.policy_epoch ≡ epoch
    → satisfies {E = E} c j epoch now ≡ ok (ltb_ℤ now c.expires_at && bit_is_set c.verdicts j)
unfolding satisfies is_fresh
satisfies_at c j epoch now lt e = ground arith

-- The eight bits are all that a refresh starts from.
bits_before-byte :
    (a : RefreshCustomerEligibility) → a.customer_eligibility.verdicts < 256 → bits_before a < 256
bits_before-byte a h = ground arith

asked_verdict :
    (aegis : Registry VestaError) (aegis_id : Pubkey) (a : RefreshCustomerEligibility) (now : ℤ)
    (index : ℕ) {c : CustomerEligibility}
    → IsDeployed aegis aegis_id
    → (r : IsRefreshed aegis aegis_id a now index c)
    → r.verdict
      ≡ handle_verify
          (aegis.program aegis_id)
          a.attestation
          (record {
            issuer = r.segment.issuer;
            subject = a.customer;
            schema_id = r.segment.schema_id;
          })
          now
asked_verdict aegis aegis_id a now index d r =
    let (reply, called, got) = r.asked in
    let q : VerifyPredicate = record {
      issuer = r.segment.issuer;
      subject = a.customer;
      schema_id = r.segment.schema_id;
    } in
    let called' = subst (λ key. aegis.verify key a.attestation q now ≡ ok reply) r.program called in
    let own = ok-inj _ (d.verifies a.attestation q now) called' in
    ok-inj _
      (subst (λ y. read_verdict y aegis_id conversion_failed aegis_program_mismatch ≡ ok r.verdict)
        (sym own) got)
      (read_verdict-own aegis_id (handle_verify (aegis.program aegis_id) a.attestation q now)
        conversion_failed aegis_program_mismatch)

verified :
    (aegis : Registry VestaError) (aegis_id : Pubkey) (a : RefreshCustomerEligibility) (s : Segment)
    (now : ℤ)
    → ((handle_verify
          (aegis.program aegis_id)
          a.attestation
          (record { issuer = s.issuer; subject = a.customer; schema_id = s.schema_id })
          now).ok
        ≡ true)
      ↔ IsVerified
          (aegis.program aegis_id)
          a.attestation
          s.issuer
          a.customer
          s.schema_id
          (pos 0)
          now
unfolding handle_verify
verified aegis aegis_id a s now = (
  verify_ok (aegis.program aegis_id) a.attestation s.issuer a.customer s.schema_id (pos 0) now,
  verify_complete (aegis.program aegis_id) a.attestation s.issuer a.customer s.schema_id (pos 0)
      now,
)

asks_both :
    {P : Type 0} {b v : Bool} (answer : Result VestaError Bool) (later expires_at : ℤ)
    → answer ≡ ok (ltb_ℤ later expires_at && b)
    → b ≡ v
    → ((v ≡ true) ↔ P)
    → (answer ≡ ok true) ↔ ((later <ℤ expires_at) × P)
asks_both answer later expires_at e bit iff = (
  λ h. let (l, t) = and_inv _ _ (ok-inj _ e h) in (ltb→lt _ _ l, iff.0 (sym bit ∙ t)),
  λ r. e ∙ ap (λ x. ok x) (both (before later expires_at r.0) (bit ∙ iff.1 r.1)),
)
  where
    both : {x y : Bool} → x ≡ true → y ≡ true → (x && y) ≡ true
    both h k = ground arith

    before : (s t : ℤ) → s <ℤ t → ltb_ℤ s t ≡ true
    before s t lt = ground arith

-- After a refresh of one segment against a deployed registry, the cache satisfies that segment exactly
-- until the new expiry and if the account holds the customer's credential of the segment's issuer and
-- schema, in force at the refresh; and it has no bit past the eighth.
pub refresh_marks :
    (aegis : Registry VestaError) (aegis_id : Pubkey) (a : RefreshCustomerEligibility) (now : ℤ)
    (index : ℕ) (later : ℤ) {c : CustomerEligibility}
    → IsDeployed aegis aegis_id
    → a.customer_eligibility.verdicts < 256
    → handle_refresh_customer_eligibility aegis aegis_id a now index ≡ ok c
    → (c.verdicts < 256)
      × ((s : Segment) × (segment_at a.merchant_segments.segments index ≡ ok s)
          × ((satisfies {E = VestaError} c index a.merchant_segments.policy_epoch later ≡ ok true)
              ↔ ((later <ℤ c.expires_at)
                  × IsVerified
                      (aegis.program aegis_id)
                      a.attestation
                      s.issuer
                      a.customer
                      s.schema_id
                      (pos 0)
                      now)))
refresh_marks aegis aegis_id a now index later {c} d byte h =
    let r = refresh_inv aegis aegis_id a now index h in
    let m = mark_lem (bits_before a) index r.verdict.ok (bits_before-byte a byte) r.in_range in
    let bit =
      ap (λ v. bit_is_set v index) r.bits
      ∙ m.own
      ∙ ap (λ v. v.ok) (asked_verdict aegis aegis_id a now index d r) in
    (
      subst (λ v. v < 256) (sym r.bits) m.byte,
      (
        r.segment,
        r.found,
        asks_both _ later c.expires_at
            (satisfies_at c index a.merchant_segments.policy_epoch later r.in_range r.epoch) bit
            (verified aegis aegis_id a r.segment now),
      ),
    )

-- A refresh of one segment makes the verdict that the cache holds on every other segment count until
-- the new expiry, whether or not it had expired, and asks nothing about that other segment.
pub refresh_revives :
    (aegis : Registry VestaError) (aegis_id : Pubkey) (a : RefreshCustomerEligibility) (now : ℤ)
    (index other : ℕ) (later : ℤ) {c : CustomerEligibility}
    → IsCurrentCache a
    → other < 8
    → index ≢ other
    → handle_refresh_customer_eligibility aegis aegis_id a now index ≡ ok c
    → satisfies {E = VestaError} c other a.merchant_segments.policy_epoch later
      ≡ ok (ltb_ℤ later c.expires_at && bit_is_set a.customer_eligibility.verdicts other)
refresh_revives aegis aegis_id a now index other later {c} cur lt ne h =
    let r = refresh_inv aegis aegis_id a now index h in
    let m = mark_lem (bits_before a) index r.verdict.ok (bits_before-byte a cur.byte) r.in_range in
    satisfies_at c other a.merchant_segments.policy_epoch later lt r.epoch
    ∙ ap (λ b. ok (ltb_ℤ later c.expires_at && b))
        (ap (λ v. bit_is_set v other) r.bits ∙ m.others other lt ne ∙ old)
  where
    old : bit_is_set (bits_before a) other ≡ bit_is_set a.customer_eligibility.verdicts other
    old = rw cur.known refl
