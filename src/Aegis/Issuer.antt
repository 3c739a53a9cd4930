-- ===== src/Aegis/Issuer.antt =====
-- The instructions of an issuer's admin (programs/aegis/src/instructions/issuer.rs).
use vesta_core.Base.{
  ℕ, Bool, false, ◌&&◌, not, Option, none, some, leb, ◌==◌, length, Result, ok, ◌>>◌, require,
}
use vesta_core.Aegis.Error.{AegisError, invalid_name, authority_only, pending_authority_mismatch}
use vesta_core.Aegis.State.{Pubkey, Text, state_version, max_name_len, Issuer, is_some_key}

pub handle_init_issuer : Pubkey → ℕ → ℕ → Text → Result AegisError Issuer
handle_init_issuer authority bump id name = do
  require (not (length name == 0) && leb (length name) max_name_len) invalid_name
  ok (record {
    version = state_version;
    id = id;
    authority = authority;
    pending_authority = none;
    operator = none;
    name = name;
    issued = 0;
    paused = false;
    bump = bump;
  })

-- `has_one = authority @ AuthorityOnly`
unfoldable pub issuer_authority : Issuer → Pubkey → Result AegisError (Unit {0})
issuer_authority i signer = require (i.authority == signer) authority_only

unfoldable pub handle_set_issuer_paused : Issuer → Pubkey → Bool → Result AegisError Issuer
unfolding issuer_authority
handle_set_issuer_paused i signer paused = do
  issuer_authority i signer
  ok (record i { paused = paused })

unfoldable pub handle_set_operator : Issuer → Pubkey → Option Pubkey → Result AegisError Issuer
unfolding issuer_authority
handle_set_operator i signer operator = do
  issuer_authority i signer
  ok (record i { operator = operator })

unfoldable pub handle_transfer_issuer_authority :
    Issuer → Pubkey → Pubkey → Result AegisError Issuer
unfolding issuer_authority
handle_transfer_issuer_authority i signer new_authority = do
  issuer_authority i signer
  ok (record i { pending_authority = some new_authority })

unfoldable pub handle_accept_issuer_authority : Issuer → Pubkey → Result AegisError Issuer
handle_accept_issuer_authority i signer = do
  require (is_some_key i.pending_authority signer) pending_authority_mismatch
  ok (record i { authority = signer; pending_authority = none; operator = none })
