-- ===== src/Merchants/Segments.antt =====
-- Verified segments of customers, and the cache of their verdicts
-- (programs/vesta-core/src/instructions/segmentation.rs).
pub mod Cache
use vesta_core.Base.{
  ℕ, zero, suc, ◌-◌, ◌^◌, Bool, true, false, ◌||◌, not, Option, none, some, List, [], ◌∷◌, ◌++◌, ℤ,
  pos, leb_ℤ, ltb_ℤ, leb, ltb, ◌==◌, if◌then◌else◌, length, bit_and, saturating_add, u32_max,
  bit_or, u64_max, checked_add_i64, Result, ok, panic, ◌>>=◌, ◌>>◌, require, ok_or, Slot,
}
use vesta_core.Aegis.State.{Attestation}
use vesta_core.Aegis.Verify.{Verdict, VerifyPredicate}
use vesta_core.Aegis.Registry.{Registry, read_verdict}
use vesta_core.Vesta.Constants.{
  Pubkey, default_key, state_version, max_segments, default_eligibility_ttl_secs,
}
use vesta_core.Vesta.Error.{
  VestaError, too_many_segments, invalid_segment, invalid_reserve_params, aegis_program_mismatch,
  conversion_failed, overflow,
}
use vesta_core.Vesta.Merchant.{Merchant}
use vesta_core.Vesta.Customer.{Segment, MerchantSegments, CustomerEligibility, bit_is_set}
use vesta_core.Merchants.{owner_only}

-- `Segment::default()`
abbrev pub no_segment : Segment
no_segment = record {
  issuer = default_key;
  schema_id = 0;
  ttl_secs = pos 0;
  boost_bps = 0;
  active = false;
}

abbrev pub no_segments : List Segment
no_segments =
    no_segment ∷ no_segment ∷ no_segment ∷ no_segment ∷ no_segment ∷ no_segment ∷ no_segment
    ∷ no_segment ∷ []

-- The slots with the given segments in the first of them. A slot past the array's end panics.
pub place : List Segment → List Segment → Result VestaError (List Segment)
place slots [] = ok slots
place [] (s ∷ ss) = do require (leb_ℤ (pos 0) s.ttl_secs) invalid_reserve_params; panic
place (slot ∷ slots) (s ∷ ss) = do
  require (leb_ℤ (pos 0) s.ttl_secs) invalid_reserve_params
  rest ← place slots ss
  ok (s ∷ rest)

-- The account is created if there is none: a new one is zero.
pub handle_set_merchant_segments :
    Merchant
    → Pubkey
    → Pubkey
    → MerchantSegments
    → ℕ
    → List Segment
    → Result VestaError MerchantSegments
unfolding place
handle_set_merchant_segments m merchant_key signer s bump segments = do
  owner_only m signer
  require (leb (length segments) max_segments) too_many_segments
  let s' =
      if s.merchant == default_key
      then record s {
        version = state_version;
        merchant = merchant_key;
        policy_epoch = 0;
        bump = bump;
      }
      else s
  slots ← place no_segments segments
  ok (record s' { segments = slots; policy_epoch = saturating_add u64_max s'.policy_epoch 1 })

-- `segments[idx]`
pub segment_at : List Segment → ℕ → Result VestaError Segment
segment_at [] i = panic
segment_at (s ∷ ss) zero = ok s
segment_at (s ∷ ss) (suc i) = segment_at ss i

-- `verdicts |= bit` and `verdicts &= !bit`
unfoldable pub mark : ℕ → ℕ → Bool → ℕ
mark verdicts i satisfied =
    if satisfied then bit_or verdicts (2 ^ i) else bit_and verdicts (u32_max - 2 ^ i)

abbrev pub ttl_of : Segment → ℤ
ttl_of s = if ltb_ℤ (pos 0) s.ttl_secs then s.ttl_secs else pos default_eligibility_ttl_secs

-- The cache is new, or of other segments.
pub is_outdated : CustomerEligibility → ℕ → Bool
is_outdated cache epoch = cache.merchant == default_key || not (cache.policy_epoch == epoch)

-- The accounts of a refresh, which anyone may ask for; a new cache is zero.
pub record RefreshCustomerEligibility : Type 0 where
  pub merchant_key : Pubkey
  pub customer : Pubkey
  pub merchant_segments : MerchantSegments
  pub customer_eligibility : CustomerEligibility
  pub cache_bump : ℕ
  pub attestation : Slot Attestation
  pub aegis_program : Pubkey

pub handle_refresh_customer_eligibility :
    Registry VestaError
    → Pubkey
    → RefreshCustomerEligibility
    → ℤ
    → ℕ
    → Result VestaError CustomerEligibility
unfolding segment_at is_outdated mark read_verdict
handle_refresh_customer_eligibility aegis aegis_id a now segment_index = do
  require (ltb segment_index max_segments) invalid_segment
  require (a.aegis_program == aegis_id) aegis_program_mismatch
  seg ← segment_at a.merchant_segments.segments segment_index
  require seg.active invalid_segment
  reply ←
      aegis.verify a.aegis_program a.attestation
        (record { issuer = seg.issuer; subject = a.customer; schema_id = seg.schema_id }) now
  verdict ← read_verdict reply aegis_id conversion_failed aegis_program_mismatch
  expires_at ← ok_or (checked_add_i64 now (ttl_of seg)) overflow
  let epoch = a.merchant_segments.policy_epoch
  let cache = a.customer_eligibility
  let verdicts = if is_outdated cache epoch then 0 else cache.verdicts
  ok (record {
    version = state_version;
    merchant = a.merchant_key;
    customer = a.customer;
    verdicts = mark verdicts segment_index verdict.ok;
    kyc_tier = verdict.tier;
    jurisdiction = verdict.jurisdiction;
    issued_at = now;
    expires_at = expires_at;
    policy_epoch = epoch;
    aegis_program = aegis_id;
    bump = a.cache_bump;
  })
