-- ===== src/Merchants/Clawback/Cap/Tests.antt =====
-- Clawbacks at a concrete merchant.
use vesta_core.Base.{ℕ, ◌≤◌, ◌+◌, [], ◌∷◌, ℤ, pos, ok, arith}
use vesta_core.Base.Daily.{booked_on}
use vesta_core.Vesta.Merchant.{Merchant}
use vesta_core.Vesta.Samples.{protocol, bakery, guest}
use vesta_core.Merchants.Clawback.{ClawbackPoints, clawed_before}
use vesta_core.Merchants.Clawback.Cap.{Request, taken, clawback_capped}

-- At most 100 points a day; day 19 000 already saw 30.
abbrev capped : Merchant
capped = record bakery { clawback_daily_cap_raw = 100; clawed_today = 30; clawback_day = 19_000 }

abbrev accounts : ClawbackPoints
accounts = record {
  merchant_authority = 20;
  merchant_key = 6;
  merchant = capped;
  customer = 5;
  customer_profile = guest;
  profile_bump = 248;
  customer_ata = record { mint = 21; owner = 5; amount = 500 };
  treasury = 22;
  point_mint = 21;
  config = protocol;
}

abbrev ask : ℕ → ℤ → Request
ask amount now = record {
  accounts = accounts;
  transfer = λ n. ok tt;
  now = now;
  amount = amount;
  reason = 1;
}

-- 60 fit, 20 more do not, and the next day has its own cap.
clawback_capped_example :
    clawed_before capped 19_000
      + booked_on 19_000 (
          taken capped (
            ask 60 (pos 1_641_643_200)
            ∷ ask 20 (pos 1_641_643_200)
            ∷ ask 90 (pos 1_641_729_600)
            ∷ []))
    ≤ 100
unfolding clawed_before
clawback_capped_example =
    clawback_capped 19_000 capped
      (ask 60 (pos 1_641_643_200) ∷ ask 20 (pos 1_641_643_200) ∷ ask 90 (pos 1_641_729_600) ∷ [])
      (omega arith) (omega arith) (omega arith, (omega arith, (omega arith, tt)))
