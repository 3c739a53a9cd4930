-- ===== src/Koinon/Swap.antt =====
-- The swap of points between two members of an alliance (koinon.rs, `handle_swap_points`, and
-- programs/vesta-core/src/util.rs). Token-2022's `UiAmountToAmount` is a parameter: a mint and the
-- text of a UI amount give the error it fails with, or the return data it leaves and whose they are. So
-- are its burn and its mint.
pub mod Rate
pub mod Budget
pub mod Format
pub mod Terms
use vesta_core.Base.{
  ℕ, zero, suc, ◌+◌, ◌*◌, ◌/◌, ◌%◌, Bool, true, false, not, ◌&&◌, Option, none, some, List, [], ◌∷◌,
  ◌++◌, ℤ, leb, ltb, ◌==◌, if◌then◌else◌, Result, ok, err, ◌>>=◌, ◌>>◌, require, ok_or, and_then,
  try_from, checked_add, checked_sub, checked_mul, checked_div, saturating_add, u64_max, u128_max,
  unix_day, length,
}
use vesta_core.Vesta.Constants.{Pubkey, Text}
use vesta_core.Vesta.Error.{
  VestaError, member_inactive, protocol_paused, alliance_paused, merchant_paused, invalid_amount,
  slippage_exceeded, overflow, swap_budget_exceeded, conversion_failed,
}
use vesta_core.Vesta.Merchant.{Config, Merchant}
use vesta_core.Vesta.Alliance.{Alliance, AllianceMember}

-- The decimal digits of a number, in ASCII, on as many steps as it has digits.
unfoldable pub decimal : ℕ → ℕ → Text
decimal zero n = []
decimal (suc fuel) n =
    let rest = decimal fuel (n / 10) in
    if ltb n 10 then (48 + n) ∷ [] else rest ++ (48 + n % 10) ∷ []

-- A `u64` has at most 20 digits.
abbrev u64_digits : ℕ
u64_digits = 20

-- `format!("{}.{:02}", ui / 100, ui % 100)`
unfoldable pub format_ui_amount : ℕ → Text
unfolding decimal
format_ui_amount ui =
    decimal u64_digits (ui / 100) ++ 46 ∷ (48 + ui % 100 / 10) ∷ (48 + ui % 10) ∷ []

unfoldable pub from_le_bytes : List ℕ → ℕ
from_le_bytes [] = 0
from_le_bytes (b ∷ bs) = b + 256 * from_le_bytes bs

abbrev pub UiAmountToAmount : Type 0
UiAmountToAmount = Pubkey → Text → Result VestaError (Option (Pubkey × List ℕ))

unfoldable pub ui_points_to_raw : UiAmountToAmount → Pubkey → Pubkey → ℕ → Result VestaError ℕ
unfolding format_ui_amount from_le_bytes
ui_points_to_raw call token_program mint ui = do
  reply ← call mint (format_ui_amount ui)
  data' ← ok_or reply conversion_failed
  require (data'.0 == token_program) conversion_failed
  require (length data'.1 == 8) conversion_failed
  ok (from_le_bytes data'.1)

-- What a swap asks of the token program: the conversion, and to burn and to mint an amount of a mint's
-- tokens, which ends well or fails the transaction.
pub record TokenProgram : Type 0 where
  pub convert : UiAmountToAmount
  pub burn : Pubkey → ℕ → Result VestaError (Unit {0})
  pub mint_to : Pubkey → ℕ → Result VestaError (Unit {0})

-- The UI value that a swap pays out: the cross rate, rounded down, less the alliance's fee.
pub quote_out : ℕ → ℕ → ℕ → ℕ → Result VestaError ℕ
quote_out rate_a rate_b fee_bps ui = do
  crossed ← ok_or (and_then (checked_mul u128_max ui rate_a) (λ v. checked_div v rate_b)) overflow
  kept ← ok_or (checked_sub 10_000 fee_bps) overflow
  after_fee ←
      ok_or (and_then (checked_mul u128_max crossed kept) (λ v. checked_div v 10_000)) overflow
  ok_or (try_from u64_max after_fee) overflow

-- The counter of the inbound budget, rolled over to `today`.
pub swapped_before : AllianceMember → ℕ → ℕ
swapped_before member today = if member.budget_day == today then member.swapped_in_today else 0

pub book_inbound : AllianceMember → ℕ → ℕ → Result VestaError AllianceMember
unfolding swapped_before
book_inbound member today raw_out = do
  swapped ← ok_or (checked_add u64_max (swapped_before member today) raw_out) overflow
  require (leb swapped member.swap_in_budget_raw) swap_budget_exceeded
  ok (record member { budget_day = today; swapped_in_today = swapped })

-- The accounts of a swap; the two members are different accounts.
pub record SwapPoints : Type 0 where
  pub alliance : Alliance
  pub member_a : AllianceMember
  pub member_b : AllianceMember
  pub merchant_a : Merchant
  pub merchant_b : Merchant
  pub mint_a : Pubkey
  pub mint_b : Pubkey
  pub config : Config
  pub token_program : Pubkey

-- What a swap leaves in the accounts, and the amounts that are burned and minted.
pub record Swapped : Type 0 where
  pub alliance : Alliance
  pub member_a : AllianceMember
  pub member_b : AllianceMember
  pub burned : ℕ
  pub minted : ℕ

-- The tests before any conversion: the members' constraints, then the pauses and the amount.
pub swap_guards : SwapPoints → ℕ → Result VestaError (Unit {0})
swap_guards x ui = do
  require x.member_a.active member_inactive
  require x.member_b.active member_inactive
  require (not x.config.paused) protocol_paused
  require (not x.alliance.paused) alliance_paused
  require (not x.merchant_a.paused && not x.merchant_b.paused) merchant_paused
  require (ltb 0 ui) invalid_amount

pub handle_swap_points : TokenProgram → SwapPoints → ℤ → ℕ → ℕ → ℕ → Result VestaError Swapped
unfolding swap_guards ui_points_to_raw quote_out book_inbound
handle_swap_points program x now ui max_raw_in min_raw_out = do
  swap_guards x ui
  raw_in ← ui_points_to_raw program.convert x.token_program x.mint_a ui
  require (ltb 0 raw_in) invalid_amount
  require (leb raw_in max_raw_in) slippage_exceeded
  ui_out ←
      quote_out x.member_a.rate_bps_to_alliance x.member_b.rate_bps_to_alliance x.alliance.fee_bps
        ui
  require (ltb 0 ui_out) invalid_amount
  raw_out ← ui_points_to_raw program.convert x.token_program x.mint_b ui_out
  require (leb min_raw_out raw_out) slippage_exceeded
  today ← ok_or (unix_day now) overflow
  member_b ← book_inbound x.member_b today raw_out
  program.burn x.mint_a raw_in
  program.mint_to x.mint_b raw_out
  ok (record {
    alliance = record x.alliance {
      total_swaps = saturating_add u64_max x.alliance.total_swaps 1;
      total_ui_volume = saturating_add u128_max x.alliance.total_ui_volume ui;
    };
    member_a = record x.member_a {
      total_swapped_out = saturating_add u64_max x.member_a.total_swapped_out raw_in;
    };
    member_b = record member_b {
      total_swapped_in = saturating_add u64_max member_b.total_swapped_in raw_out;
    };
    burned = raw_in;
    minted = raw_out;
  })
