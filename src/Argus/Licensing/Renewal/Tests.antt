-- ===== src/Argus/Licensing/Renewal/Tests.antt =====
-- The renewal of a concrete perpetual license.
use vesta_core.Base.{◌≡◌, refl, false, ok, pos, none, arith, bit_and, ◌==◌, ◌+ℤ◌}
use vesta_core.Argus.Execute.Tests.{guard}
use vesta_core.Argus.Trust.{guard_authority}
use vesta_core.Argus.Licensing.{ArgusProtocol, LicenseState, grants, handle_purchase_license}
use vesta_core.Argus.Licensing.Renewal.{renewal_ends_perpetual}

abbrev protocol : ArgusProtocol
protocol = record {
  version = 1;
  authority = 90;
  pending_authority = none;
  license_fee_lamports = 5;
  bump = 242;
}

abbrev perpetual : LicenseState
perpetual = record {
  version = 1;
  mint = 10;
  tier = 2;
  entitlements = 15;
  expires_at = pos 0;
  bump = 241;
}

abbrev limited : LicenseState
limited = record perpetual { expires_at = pos 2_593_000 }

bought :
    handle_purchase_license (λ n. ok tt) guard protocol perpetual 11 1 (pos 1_000) ≡ ok (limited, 5)
unfolding handle_purchase_license guard_authority ◌+ℤ◌
bought = refl

renewal_ends_perpetual_example :
    (grants perpetual 2 (pos 3_000_000) ≡ (bit_and 15 2 == 2))
    × (grants limited 2 (pos 3_000_000) ≡ false)
unfolding ◌+ℤ◌
renewal_ends_perpetual_example =
    renewal_ends_perpetual (λ n. ok tt) guard protocol perpetual 11 1 (pos 1_000) (pos 3_000_000) 2
      refl (omega arith) (omega arith) bought
