-- ===== src/Argus/Roles.antt =====
-- The separation-of-duties roles (programs/argus/src/state.rs).
use vesta_core.Base.{ℕ, ℤ, not, ◌&&◌, ◌==◌, if◌then◌else◌, Result, ok, err, require}
use vesta_core.Argus.Error.{GuardError, role_unauthorized, invalid_role}
use vesta_core.Argus.State.{Pubkey, default_key}

pub data Role : Type 0 where
  role_admin author approver activator pause_operator reporter : Role

pub record RoleRegistry : Type 0 where
  pub version : ℕ
  pub mint : Pubkey
  pub role_admin : Pubkey
  pub author : Pubkey
  pub approver : Pubkey
  pub activator : Pubkey
  pub pause_operator : Pubkey
  pub reporter : Pubkey
  pub pending_role : ℕ
  pub pending_authority : Pubkey
  pub pending_after : ℤ
  pub bump : ℕ

unfoldable pub authority_for : RoleRegistry → Role → Pubkey
authority_for r Role.role_admin = r.role_admin
authority_for r Role.author = r.author
authority_for r Role.approver = r.approver
authority_for r Role.activator = r.activator
authority_for r Role.pause_operator = r.pause_operator
authority_for r Role.reporter = r.reporter

unfoldable pub set_role : RoleRegistry → Role → Pubkey → RoleRegistry
set_role r Role.role_admin key = record r { role_admin = key }
set_role r Role.author key = record r { author = key }
set_role r Role.approver key = record r { approver = key }
set_role r Role.activator key = record r { activator = key }
set_role r Role.pause_operator key = record r { pause_operator = key }
set_role r Role.reporter key = record r { reporter = key }

-- An unset role matches no signer.
unfoldable pub require_role : RoleRegistry → Role → Pubkey → Result GuardError (Unit {0})
unfolding authority_for
require_role r role signer =
    require (not (authority_for r role == default_key) && authority_for r role == signer)
      role_unauthorized

unfoldable pub role_of : ℕ → Result GuardError Role
role_of v =
    if v == 0
    then ok Role.role_admin
    else if v == 1
    then ok Role.author
    else if v == 2
    then ok Role.approver
    else if v == 3
    then ok Role.activator
    else if v == 4
    then ok Role.pause_operator
    else if v == 5
    then ok Role.reporter
    else err invalid_role
