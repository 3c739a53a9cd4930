-- ===== src/Protocol.antt =====
-- The protocol's configuration: its creation, its administration and its migration
-- (programs/vesta-core/src/instructions/init_config.rs, admin.rs, migrate_config.rs). What an account of
-- the new size must hold is a parameter.
pub mod Handover
use vesta_core.Base.{
  ℕ, Bool, true, false, Option, none, some, ◌==◌, ◌+◌, if◌then◌else◌, saturating_sub, Result, ok,
  ◌>>=◌, ◌>>◌, require,
}
use vesta_core.Vesta.Constants.{Pubkey}
use vesta_core.Vesta.Error.{
  VestaError, unauthorized, pending_admin_mismatch, migration_already_applied,
}
use vesta_core.Vesta.Merchant.{Config}

pub handle_init_config : Pubkey → ℕ → Config
handle_init_config admin bump = record {
  admin = admin;
  pending_admin = none;
  paused = false;
  bump = bump;
}

-- `has_one = admin @ Unauthorized`
pub admin_only : Config → Pubkey → Result VestaError (Unit {0})
admin_only config signer = require (config.admin == signer) unauthorized

pub handle_set_admin : Config → Pubkey → Pubkey → Result VestaError Config
unfolding admin_only
handle_set_admin config signer new_admin = do
  admin_only config signer
  ok (record config { pending_admin = some new_admin })

pub handle_set_paused : Config → Pubkey → Bool → Result VestaError Config
unfolding admin_only
handle_set_paused config signer paused = do
  admin_only config signer
  ok (record config { paused = paused })

abbrev is_pending_admin : Option Pubkey → Pubkey → Bool
is_pending_admin none signer = false
is_pending_admin (some key) signer = key == signer

pub handle_accept_admin : Config → Pubkey → Result VestaError Config
handle_accept_admin config signer = do
  require (is_pending_admin config.pending_admin signer) pending_admin_mismatch
  ok (record config { admin = signer; pending_admin = none })

abbrev v1_len : ℕ
v1_len = 42

-- 8 bytes of discriminator, 32 of the administrator, 33 of the pending one, and two more.
abbrev v2_len : ℕ
v2_len = 75

-- An account at the configuration's address: its length, whether it starts with the discriminator of a
-- `Config`, and the fields of the first layout.
pub record ConfigData : Type 0 where
  pub data_len : ℕ
  pub is_config : Bool
  pub admin : Pubkey
  pub paused : Bool
  pub bump : ℕ
  pub lamports : ℕ

-- The configuration in the new layout, its length, and what the administrator adds to its balance.
pub record Migrated : Type 0 where
  pub config : Config
  pub data_len : ℕ
  pub top_up : ℕ

pub handle_migrate_config : (ℕ → ℕ) → ConfigData → Pubkey → Result VestaError Migrated
handle_migrate_config minimum_balance c signer = do
  require (c.data_len == v1_len) migration_already_applied
  require c.is_config unauthorized
  require (c.admin == signer) unauthorized
  ok (record {
    config = record { admin = c.admin; pending_admin = none; paused = c.paused; bump = c.bump };
    data_len = v2_len;
    top_up = saturating_sub (minimum_balance v2_len) c.lamports;
  })
