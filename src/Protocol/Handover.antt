-- ===== src/Protocol/Handover.antt =====
-- Who can become the administrator (programs/vesta-core/src/instructions/admin.rs, migrate_config.rs).
use vesta_core.Base.{ℕ, ◌≡◌, ◌≢◌, Bool, some, arith, Result, ok, err}
use vesta_core.Vesta.Constants.{Pubkey}
use vesta_core.Vesta.Error.{VestaError, migration_already_applied}
use vesta_core.Vesta.Merchant.{Config}
use vesta_core.Protocol.{
  admin_only, handle_set_admin, handle_set_paused, handle_accept_admin, ConfigData, Migrated,
  handle_migrate_config,
}

-- The instructions on the configuration, each with its signer.
pub data Op : Type 0 where
  set_admin : Pubkey → Pubkey → Op
  set_paused : Pubkey → Bool → Op
  accept : Pubkey → Op

abbrev pub signer : Op → Pubkey
signer (set_admin s _) = s
signer (set_paused s _) = s
signer (accept s) = s

result : Config → Op → Result VestaError Config
result c (set_admin s key) = handle_set_admin c s key
result c (set_paused s paused) = handle_set_paused c s paused
result c (accept s) = handle_accept_admin c s

-- None but the administrator and the key that it has proposed changes anything.
stranger_refused :
    (c c' : Config) (o : Op)
    → signer o ≢ c.admin
    → c.pending_admin ≢ some (signer o)
    → result c o ≢ ok c'
unfolding result handle_set_admin handle_set_paused handle_accept_admin admin_only
stranger_refused c c' (set_admin s key) n m h = ground arith
stranger_refused c c' (set_paused s paused) n m h = ground arith
stranger_refused c c' (accept s) n m h = ground arith

-- A migrated account is not migrated again, whoever signs.
migrated_once :
    (minimum_balance : ℕ → ℕ) (c c' : ConfigData) (s s' : Pubkey) (r : Migrated)
    → handle_migrate_config minimum_balance c s ≡ ok r
    → c'.data_len ≡ r.data_len
    → handle_migrate_config minimum_balance c' s' ≡ err migration_already_applied
unfolding handle_migrate_config
migrated_once minimum_balance c c' s s' r h len = ground arith
