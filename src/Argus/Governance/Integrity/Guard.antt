-- ===== src/Argus/Governance/Integrity/Guard.antt =====
-- The instructions of the guard authority (programs/argus/src/instructions/admin.rs) and the policy
-- of a governed mint.
use mathlib.Core.Path.{subst}
use vesta_core.Base.{ok-inj, require_inv, >>=-ok, ◌≡◌, refl, Bool, true, not, arith, ok, require}
use vesta_core.Argus.Error.{role_unauthorized, pending_authority_mismatch}
use vesta_core.Argus.State.{Pubkey, GuardConfig}
use vesta_core.Argus.Policy.{
  as_policy_doc, PolicyUpdate, require_guard_authority, handle_configure_policy,
  handle_set_guard_paused, handle_transfer_guard_authority, handle_accept_guard_authority,
  is_pending,
}

-- A change of the guard that leaves its policy as it was.
pub record IsSamePolicy (c c' : GuardConfig) : Type 0 where
  pub governed : c'.governed ≡ c.governed
  pub doc : as_policy_doc c' ≡ as_policy_doc c
  pub stamp : c'.active_policy_hash ≡ c.active_policy_hash

pub configure_keeps :
    (c c' : GuardConfig) (key : Pubkey) (update : PolicyUpdate)
    → c.governed ≡ true
    → handle_configure_policy c key update ≡ ok c'
    → IsSamePolicy c c'
unfolding handle_configure_policy
configure_keeps c c' key update governed e =
    let (_, _, e1) = >>=-ok (require_guard_authority c.authority key) _ e in
    let (_, e2, _) = >>=-ok (require (not c.governed) role_unauthorized) _ e1 in
    let closed = require_inv _ _ e2 in ground arith

same_policy : (c c' d : GuardConfig) → c' ≡ d → IsSamePolicy c c' → IsSamePolicy c d
same_policy c c' d e s = subst (IsSamePolicy c) e s

pub pause_keeps :
    (c c' : GuardConfig) (key : Pubkey) (paused : Bool)
    → handle_set_guard_paused c key paused ≡ ok c'
    → IsSamePolicy c c'
unfolding handle_set_guard_paused as_policy_doc
pause_keeps c c' key paused e =
    let (_, _, e1) = >>=-ok (require_guard_authority c.authority key) _ e in
    same_policy c _ c' (ok-inj _ refl e1) (record { governed = refl; doc = refl; stamp = refl })

pub transfer_keeps :
    (c c' : GuardConfig) (key new : Pubkey)
    → handle_transfer_guard_authority c key new ≡ ok c'
    → IsSamePolicy c c'
unfolding handle_transfer_guard_authority as_policy_doc
transfer_keeps c c' key new e =
    let (_, _, e1) = >>=-ok (require_guard_authority c.authority key) _ e in
    same_policy c _ c' (ok-inj _ refl e1) (record { governed = refl; doc = refl; stamp = refl })

pub accept_keeps :
    (c c' : GuardConfig) (key : Pubkey)
    → handle_accept_guard_authority c key ≡ ok c'
    → IsSamePolicy c c'
unfolding handle_accept_guard_authority as_policy_doc
accept_keeps c c' key e =
    let (_, _, e1) =
      >>=-ok (require (is_pending c.pending_authority key) pending_authority_mismatch) _ e in
    same_policy c _ c' (ok-inj _ refl e1) (record { governed = refl; doc = refl; stamp = refl })
