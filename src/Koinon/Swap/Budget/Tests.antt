-- ===== src/Koinon/Swap/Budget/Tests.antt =====
-- Runs of the swap on concrete accounts.
use vesta_core.Base.{◌+◌, ◌≤◌, ◌≡◌, refl, some, List, [], ◌∷◌, ℤ, pos, arith, ok, unix_day}
use vesta_core.Vesta.Samples.{protocol, bakery}
use vesta_core.Koinon.Tests.{market, cafe_member}
use vesta_core.Koinon.Swap.{
  UiAmountToAmount, TokenProgram, SwapPoints, quote_out, swapped_before, book_inbound, swap_guards,
  decimal, format_ui_amount, from_le_bytes, ui_points_to_raw, handle_swap_points,
}
use vesta_core.Koinon.Swap.Rate.{round_trip_no_gain}
use vesta_core.Koinon.Swap.Budget.{
  Request, IsClocked, inbound_on, budget_holds, attempt, settle, into,
}

-- A program that answers every amount with 200 raw units.
abbrev flat : UiAmountToAmount
flat mint text = ok (some (99, 200 ∷ 0 ∷ 0 ∷ 0 ∷ 0 ∷ 0 ∷ 0 ∷ 0 ∷ []))

abbrev pub bank : TokenProgram
bank = record { convert = flat; burn = λ mint amount. ok tt; mint_to = λ mint amount. ok tt }

abbrev pub swap : SwapPoints
swap = record {
  alliance = market;
  member_a = record cafe_member { merchant = 41; rate_bps_to_alliance = 7_000 };
  member_b = cafe_member;
  merchant_a = bakery;
  merchant_b = bakery;
  mint_a = 80;
  mint_b = 81;
  config = protocol;
  token_program = 99;
}

abbrev pub noon : ℤ
noon = pos 1_641_643_200

twelve_thirty : format_ui_amount 1_230 ≡ 49 ∷ 50 ∷ 46 ∷ 51 ∷ 48 ∷ []
unfolding format_ui_amount decimal
twelve_thirty = refl

quoted : quote_out 7_000 10_000 500 1_001 ≡ ok 665
unfolding quote_out
quoted = refl

quoted_back : quote_out 10_000 7_000 0 665 ≡ ok 950
unfolding quote_out
quoted_back = refl

round_trip_no_gain_example : 950 ≤ 1_001
round_trip_no_gain_example = round_trip_no_gain 7_000 10_000 500 0 1_001 quoted quoted_back

abbrev ask : Request
ask = record {
  program = bank;
  accounts = swap;
  now = noon;
  ui = 1_001;
  max_raw_in = 250;
  min_raw_out = 100;
}

-- Each mints 200 onto the 300 of the day: the fourth is over the budget of 1000.
abbrev asks : List Request
asks = ask ∷ ask ∷ ask ∷ ask ∷ []

in_order : IsClocked cafe_member asks
unfolding IsClocked attempt settle into handle_swap_points swap_guards ui_points_to_raw
    format_ui_amount decimal from_le_bytes quote_out book_inbound swapped_before unix_day
in_order = (omega arith, (omega arith, (omega arith, (omega arith, tt))))

budget_holds_example :
    swapped_before cafe_member 19_000 + inbound_on 19_000 cafe_member asks
    ≤ cafe_member.swap_in_budget_raw
unfolding swapped_before
budget_holds_example = budget_holds 19_000 cafe_member asks (omega arith) in_order
