-- ===== src/Koinon/Swap/Terms.antt =====
-- What a swap costs the customer and what it pays (`handle_swap_points` of
-- programs/vesta-core/src/instructions/koinon.rs).
mod Tests
use vesta_core.Base.{
  ℕ, ◌-◌, ◌*◌, ◌≤◌, ◌<◌, ◌≡◌, refl, ap, ◌∙◌, Bool, false, true, some, ℤ, List, ◌==◌, length, Result,
  ok, require, ok_or, >>=-ok, require_inv, ok_or-ok, ok-inj, ==→eq, arith, u64_max,
}
use vesta_core.Vesta.Constants.{Pubkey, Text}
use vesta_core.Vesta.Error.{conversion_failed}
use vesta_core.Koinon.Swap.{
  UiAmountToAmount, TokenProgram, SwapPoints, Swapped, format_ui_amount, from_le_bytes, quote_out,
  ui_points_to_raw, handle_swap_points,
}
use vesta_core.Koinon.Swap.Format.{read_numeral, format_ui_amount-read}
use vesta_core.Koinon.Swap.Rate.{quote_spread, quote_fits}
use vesta_core.Koinon.Swap.Budget.{IsSwapped, swap_lem}

-- The token program itself turned the numeral of a UI amount, in hundredths, into the raw amount.
pub record IsConverted (convert : UiAmountToAmount) (token_program mint : Pubkey) (ui raw : ℕ)
    : Type 0 where
  pub text : Text
  pub spelled : read_numeral text ≡ some (ui, 2)
  pub bytes : List ℕ
  pub answered : convert mint text ≡ ok (some (token_program, bytes))
  pub sized : length bytes ≡ 8
  pub raw_read : raw ≡ from_le_bytes bytes

-- The customer's side of a swap that may run: a raw amount of A's points, worth the UI amount, is
-- burned, within the limit; a raw amount of B's points, worth `worth`, is minted, not under the limit;
-- and `worth` is positive and at most the cross rate's part of the UI amount, less the fee.
pub record IsFair (program : TokenProgram) (x : SwapPoints) (ui max_raw_in min_raw_out : ℕ)
    (r : Swapped) : Type 0 where
  pub both_active : (x.member_a.active ≡ true) × (x.member_b.active ≡ true)
  pub running : (x.config.paused ≡ false) × (x.alliance.paused ≡ false)
  pub trading : (x.merchant_a.paused ≡ false) × (x.merchant_b.paused ≡ false)
  pub positive : 0 < ui
  pub spent : IsConverted program.convert x.token_program x.mint_a ui r.burned
  pub burned : program.burn x.mint_a r.burned ≡ ok tt
  pub in_bounds : (0 < r.burned) × (r.burned ≤ max_raw_in)
  pub worth : ℕ
  pub priced :
      (0 < worth)
      × (worth * 10_000 * x.member_b.rate_bps_to_alliance
          ≤ ui * x.member_a.rate_bps_to_alliance * (10_000 - x.alliance.fee_bps))
  pub received : IsConverted program.convert x.token_program x.mint_b worth r.minted
  pub minted : program.mint_to x.mint_b r.minted ≡ ok tt
  pub out_bounds : min_raw_out ≤ r.minted

converted :
    (convert : UiAmountToAmount) (token_program mint : Pubkey) (ui : ℕ) {raw : ℕ}
    → ui ≤ u64_max
    → ui_points_to_raw convert token_program mint ui ≡ ok raw
    → IsConverted convert token_program mint ui raw
unfolding ui_points_to_raw
converted convert token_program mint ui fits h =
    let (reply, e0, h0) = >>=-ok (convert mint (format_ui_amount ui)) _ h in
    let (found, e1, h1) = >>=-ok (ok_or reply conversion_failed) _ h0 in
    let (_, e2, h2) = >>=-ok (require (found.0 == token_program) conversion_failed) _ h1 in
    let (_, e3, h3) = >>=-ok (require (length found.1 == 8) conversion_failed) _ h2 in
    let own = ==→eq found.0 token_program (require_inv _ _ e2) in
    let answer = ok_or-ok reply conversion_failed e1 in
    record {
      text = format_ui_amount ui;
      spelled = format_ui_amount-read ui fits;
      bytes = found.1;
      answered = e0 ∙ ap ok (answer ∙ ap (λ k. some (k, found.1)) own);
      sized = ==→eq (length found.1) 8 (require_inv _ _ e3);
      raw_read = ok-inj _ h3 refl;
    }

-- A swap of a UI amount of a `u64` goes through only between active members, with nothing paused and a
-- positive amount. It burns what the token program says this amount is worth in A's points, within the
-- customer's limit, and mints what it says some positive amount is worth in B's, not under the other
-- limit; and that amount is never more than the UI amount times A's rate over B's, less the alliance's
-- fee.
pub swap-IsFair :
    (program : TokenProgram) (x : SwapPoints) (now : ℤ) (ui max_raw_in min_raw_out : ℕ)
    (r : Swapped)
    → ui ≤ u64_max
    → handle_swap_points program x now ui max_raw_in min_raw_out ≡ ok r
    → IsFair program x ui max_raw_in min_raw_out r
swap-IsFair program x now ui max_raw_in min_raw_out r fits h =
    let s = swap_lem program x now ui max_raw_in min_raw_out r h in
    let rate_a = x.member_a.rate_bps_to_alliance in
    let rate_b = x.member_b.rate_bps_to_alliance in
    record {
      both_active = s.both_active;
      running = s.running;
      trading = s.trading;
      positive = s.positive;
      spent = converted program.convert x.token_program x.mint_a ui fits s.leg_a;
      burned = s.burnt;
      in_bounds = s.in_bounds;
      worth = s.ui_out;
      priced = (s.out_bounds.0, (quote_spread rate_a rate_b x.alliance.fee_bps ui s.quoted).2);
      received =
          converted program.convert x.token_program x.mint_b s.ui_out
            (quote_fits rate_a rate_b x.alliance.fee_bps ui s.quoted) s.leg_b;
      minted = s.issued;
      out_bounds = s.out_bounds.1;
    }
