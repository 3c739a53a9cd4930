-- ===== src/Merchants/Admin.antt =====
-- The settings of a merchant by its owner, the protocol's badge of trust, and the anchored statements
-- (programs/vesta-core/src/instructions/merchant_admin.rs, merchant_statements.rs).
pub mod Roster
use vesta_core.Base.{
  ℕ, zero, suc, ◌-◌, ◌+◌, Bool, true, false, ◌&&◌, not, Option, none, some, List, [], ◌∷◌, ℤ, leb,
  ltb, ◌==◌, if◌then◌else◌, length, take, contains, saturating_add, saturating_sub, u8_max, Result,
  ok, panic, ◌>>=◌, ◌>>◌, require, ok_or,
}
use vesta_core.Vesta.Constants.{
  Pubkey, Text, default_key, max_operators, max_metadata_uri_len, state_version,
}
use vesta_core.Vesta.Error.{
  VestaError, unauthorized, operators_full, operator_not_found, string_too_long,
}
use vesta_core.Vesta.Merchant.{Config, Merchant}
use vesta_core.Vesta.Assurance.{MerchantStatement}
use vesta_core.Merchants.{owner_only}

-- `iter().position(|k| *k == key)`
pub position : List ℕ → ℕ → Option ℕ
position [] key = none
position (x ∷ xs) key =
    if x == key then some 0 else elim (position xs key) [ none ↦ none | some i ↦ some (suc i) ]

-- `xs[i]` and `xs[i] = v`, which panic out of range
pub at : List ℕ → ℕ → Result VestaError ℕ
at [] i = panic
at (x ∷ xs) zero = ok x
at (x ∷ xs) (suc i) = at xs i

pub set_at : List ℕ → ℕ → ℕ → Result VestaError (List ℕ)
set_at [] i v = panic
set_at (x ∷ xs) zero v = ok (v ∷ xs)
set_at (x ∷ xs) (suc i) v = do ys ← set_at xs i v; ok (x ∷ ys)

-- `xs[..count]`
pub prefix : List ℕ → ℕ → Result VestaError (List ℕ)
prefix xs count = if leb count (length xs) then ok (take count xs) else panic

pub add_operator : Merchant → Pubkey → Result VestaError Merchant
unfolding prefix set_at
add_operator m operator = do
  require (ltb m.operator_count max_operators) operators_full
  listed ← prefix m.operators m.operator_count
  require (not (contains listed operator)) operators_full
  operators ← set_at m.operators m.operator_count operator
  ok (record m { operators = operators; operator_count = saturating_add u8_max m.operator_count 1 })

-- The last operator moves into the freed slot.
pub remove_operator : Merchant → Pubkey → Result VestaError Merchant
unfolding prefix position at set_at
remove_operator m operator = do
  listed ← prefix m.operators m.operator_count
  idx ← ok_or (position listed operator) operator_not_found
  let last = saturating_sub m.operator_count 1
  moved ← at m.operators last
  swapped ← set_at m.operators idx moved
  operators ← set_at swapped last default_key
  ok (record m { operators = operators; operator_count = saturating_sub m.operator_count 1 })

pub handle_set_merchant_operator : Merchant → Pubkey → Pubkey → Bool → Result VestaError Merchant
unfolding add_operator remove_operator
handle_set_merchant_operator m signer operator add = do
  owner_only m signer
  if add then add_operator m operator else remove_operator m operator

pub handle_set_merchant_paused : Merchant → Pubkey → Bool → Result VestaError Merchant
handle_set_merchant_paused m signer paused = do
  owner_only m signer
  ok (record m { paused = paused })

pub handle_update_merchant_profile : Merchant → Pubkey → ℕ → Text → Result VestaError Merchant
handle_update_merchant_profile m signer category metadata_uri = do
  owner_only m signer
  require (leb (length metadata_uri) max_metadata_uri_len) string_too_long
  ok (record m { category = category; metadata_uri = metadata_uri })

pub handle_set_clawback_cap : Merchant → Pubkey → ℕ → Result VestaError Merchant
handle_set_clawback_cap m signer daily_cap_raw = do
  owner_only m signer
  ok (record m { clawback_daily_cap_raw = daily_cap_raw })

pub handle_set_daily_issue_cap : Merchant → Pubkey → ℕ → Result VestaError Merchant
handle_set_daily_issue_cap m signer daily_cap_raw = do
  owner_only m signer
  ok (record m { daily_issue_cap_raw = daily_cap_raw })

pub handle_set_merchant_governance :
    Merchant → Pubkey → Bool → Pubkey → Pubkey → Result VestaError Merchant
handle_set_merchant_governance m signer enabled cashier campaign_manager = do
  owner_only m signer
  require
      (if enabled
        then not (cashier == default_key) && not (campaign_manager == default_key)
        else true)
      unauthorized
  ok (record m {
    governance_enabled = enabled;
    cashier = cashier;
    campaign_manager = campaign_manager;
  })

pub handle_verify_merchant : Config → Merchant → Pubkey → Bool → Result VestaError Merchant
handle_verify_merchant config m admin verified = do
  require (config.admin == admin) unauthorized
  ok (record m { verified = verified })

-- `init`: the statement of a period is anchored once.
pub handle_anchor_merchant_statement :
    Merchant → Pubkey → Pubkey → ℕ → ℕ → ℕ → ℕ → ℤ → Result VestaError MerchantStatement
handle_anchor_merchant_statement m merchant_key signer bump period merkle_root decision_count now =
    do
      owner_only m signer
      ok (record {
        version = state_version;
        merchant = merchant_key;
        period = period;
        merkle_root = merkle_root;
        decision_count = decision_count;
        reporter = signer;
        anchored_at = now;
        bump = bump;
      })
