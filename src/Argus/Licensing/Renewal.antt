-- ===== src/Argus/Licensing/Renewal.antt =====
-- What the purchase of a license's renewal does to its expiry (programs/argus/src/instructions/licensing.rs).
mod Tests
use vesta_core.Base.{
  ℕ, ◌+◌, ◌*◌, ◌≤◌, ◌≡◌, ◌≢◌, refl, sym, ◌⊎◌, inl, inr, Bool, true, false, ◌&&◌, ◌||◌, not, Option,
  none, some, ℤ, pos, eqb_ℤ, ltb_ℤ, ltb, leb, ◌+ℤ◌, ◌≤ℤ◌, ◌<ℤ◌, int_laws, ==→eq, ==-self, ok_or-ok,
  bit_and, checked_mul, checked_add_i64, u64_max, i64_max, ◌==◌, if◌then◌else◌, arith, Result, ok,
  ◌>>=◌, ◌>>◌, require, ok_or, >>=-ok, ok-inj, ap, ◌∙◌, +ℤ_parts,
}
use vesta_core.Argus.Error.{GuardError, overflow, invalid_entitlement}
use vesta_core.Argus.State.{Pubkey, GuardConfig}
use vesta_core.Argus.Trust.{guard_authority}
use vesta_core.Argus.Licensing.{
  ArgusProtocol, LicenseState, grants, max_ℤ, license_period_secs, handle_purchase_license,
}

-- A renewal that goes through.
pub record IsRenewed (p : ArgusProtocol) (l : LicenseState) (periods : ℕ) (now : ℤ)
    (l' : LicenseState) (fee : ℕ) : Type 0 where
  pub paid : fee ≡ p.license_fee_lamports * periods
  pub expiry : l'.expires_at ≡ max_ℤ l.expires_at now +ℤ pos (license_period_secs * periods)
  pub kept : (l'.entitlements ≡ l.entitlements) × (l'.tier ≡ l.tier)

mul_inv : (top a b : ℕ) {c : ℕ} → checked_mul top a b ≡ some c → c ≡ a * b
mul_inv top a b h = ground arith

add_inv : (a b : ℤ) {c : ℤ} → checked_add_i64 a b ≡ some c → c ≡ a +ℤ b
add_inv a b h = ground arith

renewal_inv :
    (transfer : ℕ → Result GuardError (Unit {0})) (c : GuardConfig) (p : ArgusProtocol)
    (l : LicenseState) (signer : Pubkey) (periods : ℕ) (now : ℤ) {l' : LicenseState} {fee : ℕ}
    → handle_purchase_license transfer c p l signer periods now ≡ ok (l', fee)
    → IsRenewed p l periods now l' fee
unfolding handle_purchase_license
renewal_inv transfer c p l signer periods now h =
    let (_, _, h) = >>=-ok (guard_authority c signer) _ h in
    let (_, _, h) = >>=-ok (require (ltb 0 periods) invalid_entitlement) _ h in
    let (fee, e1, h) =
      >>=-ok (ok_or (checked_mul u64_max p.license_fee_lamports periods) overflow) _ h in
    let (_, _, h) = >>=-ok (if ltb 0 fee then transfer fee else ok tt) _ h in
    let (added, e2, h) =
      >>=-ok (ok_or (checked_mul i64_max license_period_secs periods) overflow) _ h in
    let (expires_at, e3, h) =
      >>=-ok (ok_or (checked_add_i64 (max_ℤ l.expires_at now) (pos added)) overflow) _ h in
    let made = ok-inj _ h refl in
    record {
      paid =
          ap (λ r. r.1) made
          ∙ mul_inv u64_max p.license_fee_lamports periods (ok_or-ok _ overflow e1);
      expiry =
          ap (λ r. r.0.expires_at) made
          ∙ add_inv (max_ℤ l.expires_at now) (pos added) (ok_or-ok _ overflow e3)
          ∙ ap (λ s. max_ℤ l.expires_at now +ℤ pos s)
              (mul_inv i64_max license_period_secs periods (ok_or-ok _ overflow e2));
      kept = (ap (λ r. r.0.entitlements) made, ap (λ r. r.0.tier) made);
    }

covered :
    (e now later : ℤ) (n : ℕ) (e' : ℤ)
    → (later <ℤ e) ⊎ (later <ℤ (now +ℤ pos n))
    → e' ≡ max_ℤ e now +ℤ pos n
    → later <ℤ e'
covered e now later n e' t h = ground (arith, +ℤ_parts now (pos n), +ℤ_parts (max_ℤ e now) (pos n))

alive : (later e : ℤ) → later <ℤ e → ((eqb_ℤ e (pos 0) || ltb_ℤ later e) && true) ≡ true
alive later e lt = ground arith

dead :
    (now later : ℤ) (n : ℕ) (e : ℤ) (b : Bool)
    → pos 0 <ℤ now
    → (now +ℤ pos n) ≤ℤ later
    → e ≡ max_ℤ (pos 0) now +ℤ pos n
    → ((eqb_ℤ e (pos 0) || ltb_ℤ later e) && b) ≡ false
dead now later n e b start le h = ground (arith, +ℤ_parts now (pos n))

-- A renewal's fee is the protocol's for each period. A license with an expiry grants after it what it
-- granted, at every time at which it granted it and for the paid periods from the clock on.
pub renewal_extends :
    (transfer : ℕ → Result GuardError (Unit {0})) (c : GuardConfig) (p : ArgusProtocol)
    (l : LicenseState) (signer : Pubkey) (periods : ℕ) (now later : ℤ) (entitlement : ℕ)
    {l' : LicenseState} {fee : ℕ}
    → l.expires_at ≢ pos 0
    → bit_and l.entitlements entitlement ≡ entitlement
    → (later <ℤ l.expires_at) ⊎ (later <ℤ (now +ℤ pos (license_period_secs * periods)))
    → handle_purchase_license transfer c p l signer periods now ≡ ok (l', fee)
    → (grants l' entitlement later ≡ true) × (fee ≡ p.license_fee_lamports * periods)
unfolding grants
renewal_extends transfer c p l signer periods now later entitlement {l'} ne bits t h =
    let r = renewal_inv transfer c p l signer periods now h in
    (
      rw (r.kept.0, bits, ==-self entitlement)
          (alive later l'.expires_at (
            covered l.expires_at now later (license_period_secs * periods) l'.expires_at t
              r.expiry)),
      r.paid,
    )

-- A license without an expiry grants what its entitlements say at any time; a renewal of it, bought at
-- a positive clock, gives it an expiry, at and after which it grants nothing.
pub renewal_ends_perpetual :
    (transfer : ℕ → Result GuardError (Unit {0})) (c : GuardConfig) (p : ArgusProtocol)
    (l : LicenseState) (signer : Pubkey) (periods : ℕ) (now later : ℤ) (entitlement : ℕ)
    {l' : LicenseState} {fee : ℕ}
    → l.expires_at ≡ pos 0
    → pos 0 <ℤ now
    → (now +ℤ pos (license_period_secs * periods)) ≤ℤ later
    → handle_purchase_license transfer c p l signer periods now ≡ ok (l', fee)
    → (grants l entitlement later ≡ (bit_and l.entitlements entitlement == entitlement))
      × (grants l' entitlement later ≡ false)
unfolding grants
renewal_ends_perpetual transfer c p l signer periods now later entitlement {l'} e start le h =
    let r = renewal_inv transfer c p l signer periods now h in
    (
      rw e refl,
      dead now later (license_period_secs * periods) l'.expires_at _ start le
          (r.expiry ∙ ap (λ b. max_ℤ b now +ℤ pos (license_period_secs * periods)) e),
    )
