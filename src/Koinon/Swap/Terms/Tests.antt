-- ===== src/Koinon/Swap/Terms/Tests.antt =====
-- A concrete swap, and the text of a UI amount.
use vesta_core.Base.{◌≡◌, refl, some, arith, Succeeds, unix_day}
use vesta_core.Koinon.Swap.{
  quote_out, swapped_before, book_inbound, swap_guards, decimal, format_ui_amount, from_le_bytes,
  ui_points_to_raw, handle_swap_points,
}
use vesta_core.Koinon.Swap.Format.{read_numeral, format_ui_amount-read}
use vesta_core.Koinon.Swap.Budget.Tests.{bank, swap, noon}
use vesta_core.Koinon.Swap.Terms.{IsFair, swap-IsFair}

swapped : Succeeds (handle_swap_points bank swap noon 1_001 250 100)
unfolding handle_swap_points swap_guards ui_points_to_raw format_ui_amount decimal from_le_bytes
    quote_out book_inbound swapped_before unix_day
swapped = (_, refl)

swap-IsFair_example : IsFair bank swap 1_001 250 100 swapped.0
swap-IsFair_example = swap-IsFair bank swap noon 1_001 250 100 swapped.0 (omega arith) swapped.1

format_ui_amount-read_example : read_numeral (format_ui_amount 1_230) ≡ some (1_230, 2)
format_ui_amount-read_example = format_ui_amount-read 1_230 (omega arith)
