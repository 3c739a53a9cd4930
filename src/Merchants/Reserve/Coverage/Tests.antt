-- ===== src/Merchants/Reserve/Coverage/Tests.antt =====
-- A withdrawal from a concrete reserve.
use vesta_core.Base.{◌≡◌, refl, true, pos, ok, ◌+◌, ◌*◌, ◌<◌, Succeeds}
use vesta_core.Vesta.Assurance.{MerchantReserve, required_reserve}
use vesta_core.Vesta.Samples.{bakery}
use vesta_core.Merchants.{owner_only}
use vesta_core.Merchants.Reserve.{
  TokenAccount, Mint, Attested, handle_withdraw_reserve, handle_attest_reserve,
}
use vesta_core.Merchants.Reserve.Coverage.{withdraw_covers}

-- Half of each of 1 001 points, at 3 units a point: 1 501.5 units.
abbrev reserve : MerchantReserve
reserve = record {
  version = 1;
  merchant = 6;
  backing_mint = 70;
  reserve_ata = 71;
  unit_value = 3;
  target_ratio_bps = 5_000;
  bump = 249;
}

abbrev points : Mint
points = record { key = 21; supply = 1_001 }

abbrev vault : TokenAccount
vault = record { key = 71; amount = 1_601 }

withdrawn : Succeeds (handle_withdraw_reserve (λ n. ok 1_501) bakery reserve 20 points 70 vault 100)
unfolding handle_withdraw_reserve owner_only required_reserve
withdrawn = (_, refl)

withdraw_covers_example :
    (1_001 * 3 * 5_000 < (withdrawn.0 + 1) * 10_000)
    × ((e : Attested) × (handle_attest_reserve bakery 6 reserve points
            (record vault { amount = withdrawn.0 })
            (pos 50)
          ≡ ok e)
        × (e.solvent ≡ true))
withdraw_covers_example =
    withdraw_covers (λ n. ok 1_501) bakery reserve 20 6 points 70 vault 100 (pos 50) withdrawn.1
