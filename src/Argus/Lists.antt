-- ===== src/Argus/Lists.antt =====
-- The list entries of a guard and the state of a wallet (programs/argus/src/instructions/admin.rs,
-- open_wallet_state.rs). The token program's address is a parameter.
use vesta_core.Base.{ℕ, pos, ◌==◌, Result, ok, ◌>>◌, require}
use vesta_core.Argus.Error.{GuardError, mint_mismatch}
use vesta_core.Argus.State.{Pubkey, GuardConfig, WalletPolicyState}
use vesta_core.Argus.Policy.{require_guard_authority}

pub record PolicyListEntry : Type 0 where
  pub mint : Pubkey
  pub target : Pubkey
  pub bump : ℕ

pub handle_add_list_entry : GuardConfig → Pubkey → ℕ → Pubkey → Result GuardError PolicyListEntry
handle_add_list_entry c signer bump target = do
  require_guard_authority c.authority signer
  ok (record { mint = c.mint; target = target; bump = bump })

-- The entry's account is gone after.
pub handle_remove_list_entry : GuardConfig → Pubkey → Result GuardError (Unit {0})
handle_remove_list_entry c signer = require_guard_authority c.authority signer

pub handle_open_wallet_state : Pubkey → Pubkey → ℕ → Result GuardError WalletPolicyState
handle_open_wallet_state token_program mint_owner bump = do
  require (mint_owner == token_program) mint_mismatch
  ok (record {
    day = 0;
    sent_today = 0;
    transfers_today = 0;
    last_transfer_at = pos 0;
    bump = bump;
  })
