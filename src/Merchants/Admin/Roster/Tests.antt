-- ===== src/Merchants/Admin/Roster/Tests.antt =====
-- A change of a concrete merchant's operators.
use vesta_core.Base.{◌≡◌, refl, true, false, [], ◌∷◌, arith, Succeeds}
use vesta_core.Vesta.Merchant.{Merchant}
use vesta_core.Vesta.Samples.{bakery}
use vesta_core.Merchants.{owner_only}
use vesta_core.Merchants.Admin.{
  position, at, set_at, prefix, remove_operator, handle_set_merchant_operator,
}
use vesta_core.Merchants.Admin.Roster.{IsRoster, is_operator, operator_set}

abbrev staffed : Merchant
staffed = record bakery { operators = 31 ∷ 32 ∷ 33 ∷ 0 ∷ []; operator_count = 3 }

removed : Succeeds (handle_set_merchant_operator staffed 20 31 false)
unfolding handle_set_merchant_operator remove_operator prefix position at set_at owner_only
removed = (_, refl)

operator_set_example : IsRoster removed.0 × (is_operator removed.0 33 ≡ true)
operator_set_example =
    operator_set staffed 20 31 false 33
      (record { slots = refl; used = omega arith; distinct = refl }) removed.1
