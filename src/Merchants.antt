-- ===== src/Merchants.antt =====
-- What a merchant's owner sets, and what binds a merchant to the credential registry and to its
-- customers (programs/vesta-core/src/instructions/merchant_admin.rs, merchant_trust.rs,
-- merchant_reserve.rs, merchant_statements.rs, clawback.rs, segmentation.rs).
pub mod Admin
pub mod Trust
pub mod Reserve
pub mod Clawback
pub mod Segments
use vesta_core.Base.{Bool, ◌==◌, Result, ◌>>=◌, ◌>>◌, require, expect}
use vesta_core.Vesta.Constants.{Pubkey}
use vesta_core.Vesta.Error.{VestaError, unauthorized}
use vesta_core.Vesta.Merchant.{Merchant}

-- The seeds of a merchant's address hold its owner, so a signer who is not the owner derives another
-- address; `has_one = authority @ Unauthorized` comes after.
unfoldable pub owner_only : Merchant → Pubkey → Result VestaError (Unit {0})
owner_only m signer = do
  expect (m.authority == signer)
  require (m.authority == signer) unauthorized
