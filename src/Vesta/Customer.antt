-- ===== src/Vesta/Customer.antt =====
-- A customer's profile at a merchant, the merchant's verified segments and the cached verdicts
-- (programs/vesta-core/src/state.rs).
use vesta_core.Base.{
  ℕ, ◌^◌, Bool, ◌&&◌, not, List, ℤ, bit_and, Result, ok, panic, ltb, ltb_ℤ, ◌==◌, if◌then◌else◌,
}
use vesta_core.Vesta.Constants.{Pubkey}

pub record CustomerProfile : Type 0 where
  pub wallet : Pubkey
  pub merchant : Pubkey
  pub streak_days : ℕ
  pub last_visit_day : ℕ
  pub lifetime_earned : ℕ
  pub lifetime_redemptions : ℕ
  pub tier : ℕ
  pub lifetime_spend_base : ℕ
  pub campaigns_completed : ℕ
  pub lifetime_clawed_back : ℕ
  pub clawback_count : ℕ
  pub bump : ℕ

pub record Segment : Type 0 where
  pub issuer : Pubkey
  pub schema_id : ℕ
  pub ttl_secs : ℤ
  pub boost_bps : ℕ
  pub active : Bool

pub record MerchantSegments : Type 0 where
  pub version : ℕ
  pub merchant : Pubkey
  pub policy_epoch : ℕ
  pub segments : List Segment
  pub bump : ℕ

pub record CustomerEligibility : Type 0 where
  pub version : ℕ
  pub merchant : Pubkey
  pub customer : Pubkey
  pub verdicts : ℕ
  pub kyc_tier : ℕ
  pub jurisdiction : ℕ
  pub issued_at : ℤ
  pub expires_at : ℤ
  pub policy_epoch : ℕ
  pub aegis_program : Pubkey
  pub bump : ℕ

-- `verdicts & (1 << i) != 0`
abbrev pub bit_is_set : ℕ → ℕ → Bool
bit_is_set verdicts i = not (bit_and verdicts (2 ^ i) == 0)

unfoldable pub is_fresh : CustomerEligibility → ℕ → ℤ → Bool
is_fresh c epoch now = c.policy_epoch == epoch && ltb_ℤ now c.expires_at

-- A shift by 32 or more panics; `&&` makes it only of a fresh cache.
unfoldable pub satisfies : {E : Type 0} → CustomerEligibility → ℕ → ℕ → ℤ → Result E Bool
satisfies c index epoch now =
    if is_fresh c epoch now
    then (if ltb index 32 then ok (bit_is_set c.verdicts index) else panic)
    else ok (is_fresh c epoch now)
