-- ===== src/Argus/Governance/Rollback.antt =====
-- The expedited rollback (`handle_rollback_policy` of programs/argus/src/instructions/governance.rs).
use mathlib.Core.Path.{subst, sym}
use vesta_core.Base.{
  require_inv, >>=-ok, ◌≡◌, ◌≢◌, refl, true, false, not, ℤ, pos, leb_ℤ, eqb_ℤ, arith, ok, require,
  Succeeds,
}
use vesta_core.Argus.Error.{policy_pinned, policy_not_approved}
use vesta_core.Argus.State.{Pubkey, Hash, GuardConfig}
use vesta_core.Argus.Policy.{PolicyDoc, as_policy_doc, validate_policy}
use vesta_core.Argus.Roles.{Role, RoleRegistry, require_role}
use vesta_core.Argus.Governance.{
  PolicyVersion, PolicyPointer, apply_and_repoint, handle_approve_policy, handle_rollback_policy,
}
use vesta_core.Argus.Governance.Lifecycle.{
  Holds, require_role_inv, IsRepointed, repoint_inv, approved_as, approve_lem,
}

pub record IsRolledBack (registry : RoleRegistry) (pointer : PolicyPointer)
    (version : PolicyVersion) (config : GuardConfig) (activator : Pubkey)
    (r : GuardConfig × PolicyPointer) : Type 0 where
  pub holds : Holds registry Role.activator activator
  pub unpinned : pointer.pinned ≡ false
  pub approved : version.approved_at ≢ pos 0
  pub repointed : IsRepointed config pointer version.doc version.policy_hash r.0 r.1

pub rollback_lem :
    (registry : RoleRegistry) (pointer : PolicyPointer) (version : PolicyVersion)
    (config : GuardConfig) (activator : Pubkey) (r : GuardConfig × PolicyPointer)
    → handle_rollback_policy registry pointer version config activator ≡ ok r
    → IsRolledBack registry pointer version config activator r
unfolding handle_rollback_policy
rollback_lem registry pointer version config activator r h =
    let (_, e0, h0) = >>=-ok (require_role registry Role.activator activator) _ h in
    let (_, e1, h1) = >>=-ok (require (not pointer.pinned) policy_pinned) _ h0 in
    let (_, e2, h2) =
      >>=-ok (require (not (eqb_ℤ version.approved_at (pos 0))) policy_not_approved) _ h1 in
    let open_now = require_inv _ _ e1 in
    let dated = require_inv _ _ e2 in
    record {
      holds = require_role_inv registry Role.activator activator e0;
      unpinned = ground arith;
      approved = ground arith;
      repointed = repoint_inv config pointer version.doc version.policy_hash h2;
    }

-- The document passes the checks of a policy that is put in force.
abbrev pub IsValidFor : GuardConfig → PolicyDoc → Type 0
IsValidFor config doc =
    (leb_ℤ (pos 0) doc.capability_ttl_secs ≡ true)
    × (validate_policy doc.flags doc.daily_gift_cap doc.per_tx_cap config.aegis_program doc.policy
          config.attestation_issuer
        ≡ ok tt)

repoint_succeeds :
    (config : GuardConfig) (pointer : PolicyPointer) (doc : PolicyDoc) (hash : Hash)
    → IsValidFor config doc
    → Succeeds (apply_and_repoint config pointer doc hash)
unfolding apply_and_repoint
repoint_succeeds config pointer doc hash (dated, valid) = rw (dated, valid) (_, refl)

require_role_lem :
    (registry : RoleRegistry) (role : Role) (signer : Pubkey)
    → Holds registry role signer
    → require_role registry role signer ≡ ok tt
unfolding require_role
require_role_lem registry role signer held = ground arith

rollback_now :
    (registry : RoleRegistry) (pointer : PolicyPointer) (version : PolicyVersion)
    (config : GuardConfig) (activator : Pubkey)
    → pointer.pinned ≡ false
    → version.approved_at ≢ pos 0
    → Holds registry Role.activator activator
    → IsValidFor config version.doc
    → Succeeds (handle_rollback_policy registry pointer version config activator)
unfolding handle_rollback_policy
rollback_now registry pointer version config activator unpinned approved held valid =
    let role_held = require_role_lem registry Role.activator activator held in
    let dated : eqb_ℤ version.approved_at (pos 0) ≡ false = ground arith in
    let loose : require (not pointer.pinned) policy_pinned ≡ ok tt = rw (unpinned) refl in
    rw (role_held, loose, dated)
      (repoint_succeeds config pointer version.doc version.policy_hash valid)

-- The timelock does not guard a rollback: a version that has just been approved, at any time but 0,
-- can be put in force by the activator at once, with no time passing, on whatever timelock, as long
-- as its document passes the checks of a policy; the version it names need never have been in force.
pub rollback_skips_timelock :
    (registry : RoleRegistry) (pointer : PolicyPointer) (version : PolicyVersion)
    (config : GuardConfig) (approver activator : Pubkey) (now : ℤ)
    (r : PolicyVersion × PolicyPointer)
    → handle_approve_policy registry pointer version approver now ≡ ok r
    → now ≢ pos 0
    → Holds registry Role.activator activator
    → IsValidFor config version.doc
    → (s : GuardConfig × PolicyPointer) × (handle_rollback_policy registry r.1 r.0 config activator
        ≡ ok s)
      × (as_policy_doc s.0 ≡ version.doc)
rollback_skips_timelock registry pointer version config approver activator now r h later held
      valid =
    let a = approve_lem registry pointer version approver now r h in
    let back : Succeeds (
        handle_rollback_policy registry (record pointer { pending_approved_at = now })
          (approved_as version approver now) config activator) =
      rollback_now registry _ _ config activator a.unpinned later held valid in
    let done = rollback_lem registry _ _ config activator back.0 back.1 in
    subst
      (λ (q : PolicyVersion × PolicyPointer).
        (s : GuardConfig × PolicyPointer) × (handle_rollback_policy registry q.1 q.0 config
            activator
          ≡ ok s)
        × (as_policy_doc s.0 ≡ version.doc))
      (sym a.result) (back.0, back.1, done.repointed.live)
