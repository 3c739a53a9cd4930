-- ===== src/Merchants/Segments/Cache/Tests.antt =====
-- Refreshes of a concrete customer's cache.
use vesta_core.Base.{
  ◌≡◌, ◌<◌, ◌<ℤ◌, ◌↔◌, ◌&&◌, refl, true, false, [], ◌∷◌, pos, ok, ltb_ℤ, arith, Succeeds, ◌+ℤ◌,
  ◌-ℤ◌,
}
use vesta_core.Aegis.State.{attestation_is_live}
use vesta_core.Aegis.Verify.{evaluate, judge, handle_verify}
use vesta_core.Aegis.Verify.Verdicts.{IsVerified}
use vesta_core.Aegis.Registry.{read_verdict}
use vesta_core.Aegis.Samples.{at_home, network, network-IsDeployed, deployed_at}
use vesta_core.Vesta.Error.{VestaError}
use vesta_core.Vesta.Customer.{
  Segment, MerchantSegments, CustomerEligibility, bit_is_set, satisfies,
}
use vesta_core.Merchants.Segments.{
  no_segment, mark, is_outdated, segment_at, RefreshCustomerEligibility,
  handle_refresh_customer_eligibility,
}
use vesta_core.Merchants.Segments.Cache.{refresh_marks, refresh_revives}

abbrev residents : Segment
residents = record { issuer = 4; schema_id = 2; ttl_secs = pos 600; boost_bps = 500; active = true }

abbrev defined : MerchantSegments
defined = record {
  version = 1;
  merchant = 6;
  policy_epoch = 3;
  segments =
      residents
      ∷ record residents { schema_id = 1 }
      ∷ no_segment
      ∷ no_segment
      ∷ no_segment
      ∷ no_segment
      ∷ no_segment
      ∷ no_segment
      ∷ [];
  bump = 247;
}

-- The verdict on segment 1, which expired long ago.
abbrev stale : CustomerEligibility
stale = record {
  version = 1;
  merchant = 6;
  customer = 5;
  verdicts = 2;
  kyc_tier = 0;
  jurisdiction = 0;
  issued_at = pos 0;
  expires_at = pos 600;
  policy_epoch = 3;
  aegis_program = 3;
  bump = 246;
}

abbrev asking : RefreshCustomerEligibility
asking = record {
  merchant_key = 6;
  customer = 5;
  merchant_segments = defined;
  customer_eligibility = stale;
  cache_bump = 246;
  attestation = at_home;
  aegis_program = 3;
}

refreshed : Succeeds (handle_refresh_customer_eligibility network 3 asking (pos 2_000) 0)
unfolding handle_refresh_customer_eligibility segment_at is_outdated mark read_verdict handle_verify
    evaluate judge attestation_is_live ◌+ℤ◌ ◌-ℤ◌
refreshed = (_, refl)

refresh_marks_example :
    (refreshed.0.verdicts < 256)
    × ((s : Segment) × (segment_at defined.segments 0 ≡ ok s)
        × ((satisfies {E = VestaError} refreshed.0 0 3 (pos 2_100) ≡ ok true) ↔ (
            (pos 2_100 <ℤ refreshed.0.expires_at)
            × IsVerified (deployed_at 3) at_home s.issuer 5 s.schema_id (pos 0) (pos 2_000))))
refresh_marks_example =
    refresh_marks network 3 asking (pos 2_000) 0 (pos 2_100) (network-IsDeployed 3) (omega arith)
      refreshed.1

up_to_date : is_outdated stale 3 ≡ false
unfolding is_outdated
up_to_date = refl

refresh_revives_example :
    satisfies {E = VestaError} refreshed.0 1 3 (pos 2_100)
    ≡ ok (ltb_ℤ (pos 2_100) refreshed.0.expires_at && bit_is_set 2 1)
refresh_revives_example =
    refresh_revives network 3 asking (pos 2_000) 0 1 (pos 2_100)
      (record { known = up_to_date; byte = omega arith }) (omega arith) (omega arith) refreshed.1
