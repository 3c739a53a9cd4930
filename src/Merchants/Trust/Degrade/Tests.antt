-- ===== src/Merchants/Trust/Degrade/Tests.antt =====
-- Cranks on a concrete merchant's accreditation.
use vesta_core.Base.{ℕ, Bool, some, ◌≡◌, ◌≢◌, ◌⊎◌, refl, true, false, pos, ok, ◌-ℤ◌, arith, Slot}
use vesta_core.Aegis.State.{Accreditation, accreditation_is_live, permits}
use vesta_core.Aegis.Accreditation.{judge_accreditation, handle_verify_accreditation}
use vesta_core.Aegis.Accreditation.Edges.{accreditation_iff}
use vesta_core.Aegis.Verify.{fail}
use vesta_core.Aegis.Samples.{charter, charter_slot, root_slot, network, network-IsDeployed}
use vesta_core.Vesta.Error.{VestaError}
use vesta_core.Vesta.Merchant.{Merchant}
use vesta_core.Vesta.Assurance.{MerchantTrust}
use vesta_core.Vesta.Samples.{protocol, bakery}
use vesta_core.Earn.{earn_guards}
use vesta_core.Merchants.Trust.{handle_reverify_merchant}
use vesta_core.Merchants.Trust.Degrade.{
  IsAccredited, IsRestored, IsDegrading, crank_outcome, unaccredited_freezes,
}

-- The bakery is the bank's tenant: it must be accredited for schema 9, with an hour of grace.
abbrev anchor : MerchantTrust
anchor = record {
  version = 1;
  merchant = 6;
  accreditation_root = 8;
  subject_issuer = 4;
  required_schema = 9;
  aegis_program = 3;
  degrade_target = 2;
  grace_secs = pos 3_600;
  failing_since = pos 0;
  last_verified_at = pos 100;
  tier = 0;
  jurisdiction = 0;
  bump = 250;
}

crank_outcome_example :
    (status : ℕ) × (t' : MerchantTrust) × (handle_reverify_merchant network bakery anchor root_slot
        charter_slot 3
        (pos 2_000)
      ≡ ok (record bakery { issue_status = status }, t'))
    × ((IsAccredited network anchor root_slot charter_slot (pos 2_000)
          × IsRestored t' status (pos 2_000))
        ⊎ ((IsAccredited network anchor root_slot charter_slot (pos 2_000) → ⊥)
            × IsDegrading anchor t' 0 status (pos 2_000)))
crank_outcome_example =
    crank_outcome network bakery anchor root_slot charter_slot (pos 2_000) (network-IsDeployed 3)
      (record { root_pinned = refl; edge_pinned = refl })

abbrev revoked_slot : Slot Accreditation
revoked_slot = record {
  key = 3_084;
  owner = 3;
  is_empty = false;
  content = some (record charter { status = 1 });
}

refused_at :
    (handle_verify_accreditation
      ((network {E = VestaError}).program 3)
      root_slot
      revoked_slot
      8
      4
      9
      (pos 2_000)).ok
    ≡ false
unfolding handle_verify_accreditation judge_accreditation accreditation_is_live permits fail
refused_at = refl

refused_later :
    (handle_verify_accreditation
      ((network {E = VestaError}).program 3)
      root_slot
      revoked_slot
      8
      4
      9
      (pos 6_000)).ok
    ≡ false
unfolding handle_verify_accreditation judge_accreditation accreditation_is_live permits fail
refused_later = refl

clash : {b : Bool} → b ≡ true → b ≡ false → ⊥
clash h k = cc

positive : pos 2_000 ≢ pos 0
positive h = cc

unaccredited_freezes_example :
    (r₁ r₂ : Merchant × MerchantTrust) × (handle_reverify_merchant network bakery anchor root_slot
        revoked_slot 3
        (pos 2_000)
      ≡ ok r₁)
    × (handle_reverify_merchant network r₁.0 r₁.1 root_slot revoked_slot 3 (pos 6_000) ≡ ok r₂)
    × (r₂.0.issue_status ≡ 2)
    × (earn_guards protocol r₂.0 20 5 ≢ ok tt)
unfolding ◌-ℤ◌
unaccredited_freezes_example =
    unaccredited_freezes network bakery anchor root_slot root_slot revoked_slot revoked_slot
      (pos 2_000) (pos 6_000) protocol 20 5 (network-IsDeployed 3)
      (record { root_pinned = refl; edge_pinned = refl })
      (record { root_pinned = refl; edge_pinned = refl }) refl positive (omega arith) refl
      (λ e.
        clash
          ((accreditation_iff ((network {E = VestaError}).program 3) root_slot revoked_slot 8 4 9
              (pos 2_000)).1
            e)
          refused_at)
      (λ e.
        clash
          ((accreditation_iff ((network {E = VestaError}).program 3) root_slot revoked_slot 8 4 9
              (pos 6_000)).1
            e)
          refused_later)
