-- ===== src/Achievements.antt =====
-- A merchant's achievements and the badges for them
-- (programs/vesta-core/src/instructions/achievements.rs). The calls of the system program and of the token
-- program, the sizes and the rent that the handler asks them for, and the address of a customer's token
-- account are parameters.
pub mod Badges
use vesta_core.Base.{
  ℕ, ◌+◌, Bool, true, false, not, Option, none, some, List, [], ◌∷◌, ◌++◌, ℤ, leb, ltb, ◌==◌,
  if◌then◌else◌, length, checked_add, saturating_add, saturating_sub, u32_max, u64_max, Result, ok,
  ◌>>=◌, ◌>>◌, require, ok_or, expect,
}
use vesta_core.Vesta.Constants.{Pubkey, Text, max_name_len, max_uri_len}
use vesta_core.Vesta.Error.{
  VestaError, protocol_paused, merchant_paused, string_too_long, invalid_amount, merchant_mismatch,
  threshold_not_reached, overflow, treasury_mismatch,
}
use vesta_core.Vesta.Merchant.{Config, Merchant}
use vesta_core.Vesta.Customer.{CustomerProfile}
use vesta_core.Vesta.Catalog.{Achievement, KleosReceipt}
use vesta_core.Merchants.{owner_only}
use vesta_core.Offers.{manager_only}

pub handle_create_achievement :
    Config → Merchant → Pubkey → Pubkey → ℕ → ℕ → Text → Text → ℕ → Result VestaError Achievement
handle_create_achievement config m merchant_key signer bump id name uri threshold_lifetime = do
  require (not config.paused) protocol_paused
  require (not m.paused) merchant_paused
  manager_only m signer
  require (leb (length name) max_name_len) string_too_long
  require (leb (length uri) max_uri_len) string_too_long
  require (ltb 0 threshold_lifetime) invalid_amount
  ok (record {
    merchant = merchant_key;
    id = id;
    name = name;
    uri = uri;
    threshold_lifetime = threshold_lifetime;
    badge_count = 0;
    bump = bump;
  })

-- The achievement's account is gone after.
pub handle_close_achievement :
    Merchant → Pubkey → Pubkey → Achievement → Result VestaError (Unit {0})
handle_close_achievement m merchant_key signer achievement = do
  owner_only m signer
  require (achievement.merchant == merchant_key) merchant_mismatch

-- What the handler asks of the other programs, about the badge's mint and the customer's account of it.
pub data Call : Type 0 where
  create_account : ℕ → ℕ → Call
  transfer : ℕ → Call
  allocate : ℕ → Call
  assign : Pubkey → Call
  non_transferable_mint_initialize : Call
  metadata_pointer_initialize : Pubkey → Pubkey → Call
  initialize_mint2 : ℕ → Pubkey → Call
  token_metadata_initialize : Text → Text → Text → Call
  create_token_account : Pubkey → Call
  mint_to : ℕ → Call
  set_mint_authority : Option Pubkey → Call

pub record Platform : Type 0 where
  -- a mint with the two extensions, and its metadata
  pub mint_len : Option ℕ
  pub metadata_len : Text → Text → Text → Option ℕ
  pub minimum_balance : ℕ → ℕ
  pub token_address : Pubkey → Pubkey → Pubkey → Pubkey
  pub invoke : Call → Result VestaError (Unit {0})

-- `init` refuses a receipt that is in use.
pub record GrantAchievement : Type 0 where
  pub merchant_key : Pubkey
  pub merchant : Merchant
  pub achievement_key : Pubkey
  pub achievement : Achievement
  pub customer : Pubkey
  pub customer_profile : CustomerProfile
  pub badge_mint : Pubkey
  pub badge_lamports : ℕ
  pub badge_ata : Pubkey
  pub receipt_in_use : Bool
  pub receipt_bump : ℕ
  pub config : Config
  pub token_program : Pubkey

-- "KLEOS"
abbrev symbol : Text
symbol = 75 ∷ 76 ∷ 69 ∷ 79 ∷ 83 ∷ []

-- The creation of the badge's account, which may hold lamports already.
pub creation : GrantAchievement → ℕ → ℕ → List Call
creation a lamports space =
    if a.badge_lamports == 0
    then create_account lamports space ∷ []
    else (let top_up = saturating_sub lamports a.badge_lamports in
        (if ltb 0 top_up then transfer top_up ∷ [] else [])
        ++ (allocate space ∷ assign a.token_program ∷ []))

-- The set-up of the mint.
abbrev mint_setup : GrantAchievement → List Call
mint_setup a =
    non_transferable_mint_initialize
    ∷ metadata_pointer_initialize a.merchant_key a.badge_mint
    ∷ initialize_mint2 0 a.merchant_key
    ∷ token_metadata_initialize a.achievement.name symbol a.achievement.uri
    ∷ []

-- One badge, and no more.
abbrev single_issue : GrantAchievement → List Call
single_issue a = create_token_account a.customer ∷ mint_to 1 ∷ set_mint_authority none ∷ []

pub invoke_all : Platform → List Call → Result VestaError (Unit {0})
invoke_all p [] = ok tt
invoke_all p (c ∷ cs) = do p.invoke c; invoke_all p cs

pub record Granted : Type 0 where
  pub achievement : Achievement
  pub merchant : Merchant
  pub receipt : KleosReceipt
  pub calls : List Call

pub handle_grant_achievement : Platform → GrantAchievement → ℤ → Result VestaError Granted
unfolding creation
handle_grant_achievement p a now = do
  require (a.achievement.merchant == a.merchant_key) merchant_mismatch
  expect (not a.receipt_in_use)
  require (not a.config.paused) protocol_paused
  require (not a.merchant.paused) merchant_paused
  require (leb a.achievement.threshold_lifetime a.customer_profile.lifetime_earned)
      threshold_not_reached
  space ← ok_or p.mint_len overflow
  metadata_space ← ok_or (p.metadata_len a.achievement.name symbol a.achievement.uri) overflow
  size ← ok_or (checked_add u64_max space metadata_space) overflow
  let lamports = p.minimum_balance size
  invoke_all p (creation a lamports space)
  invoke_all p (mint_setup a)
  require (a.badge_ata == p.token_address a.customer a.badge_mint a.token_program) treasury_mismatch
  invoke_all p (single_issue a)
  badges ← ok_or (checked_add u32_max a.achievement.badge_count 1) overflow
  ok (record {
    achievement = record a.achievement { badge_count = badges };
    merchant = record a.merchant {
      badges_issued = saturating_add u64_max a.merchant.badges_issued 1;
    };
    receipt = record { granted_at = now; bump = a.receipt_bump };
    calls = creation a lamports space ++ (mint_setup a ++ single_issue a);
  })
