-- ===== src/Argus/Governance/Lifecycle.antt =====
-- The approval and the activation of a policy (programs/argus/src/instructions/governance.rs).
use mathlib.Core.Path.{subst}
use vesta_core.Base.{
  ◌≡◌, ◌≢◌, refl, false, not, ℤ, pos, ◌+ℤ◌, ◌≤ℤ◌, leb_ℤ, eqb_ℤ, arith, ◌==◌, ok, require, ok_or,
  >>=-ok, require_inv, ok-inj, checked_add_i64, u64_max, saturating_add,
}
use vesta_core.Argus.Error.{
  policy_pinned, policy_not_approved, timelock_active, policy_version_mismatch, overflow,
  invalid_policy, self_approval,
}
use vesta_core.Argus.State.{Pubkey, default_key, Hash, no_hash, GuardConfig}
use vesta_core.Argus.Policy.{PolicyDoc, as_policy_doc, validate_policy}
use vesta_core.Argus.Roles.{Role, RoleRegistry, authority_for, require_role}
use vesta_core.Argus.Governance.{
  PolicyVersion, PolicyPointer, apply_and_repoint, handle_approve_policy, handle_activate_policy,
}

-- The signer holds the role, and the role is set.
abbrev pub Holds : RoleRegistry → Role → Pubkey → Type 0
Holds registry role signer = (authority_for registry role ≡ signer) × (signer ≢ default_key)

pub require_role_inv :
    (registry : RoleRegistry) (role : Role) (signer : Pubkey) {u : Unit {0}}
    → require_role registry role signer ≡ ok u
    → Holds registry role signer
unfolding require_role
require_role_inv registry role signer h = ground arith

ready_inv : (i j : ℤ) {k : ℤ} → ok_or (checked_add_i64 i j) overflow ≡ ok k → i +ℤ j ≡ k
ready_inv i j h = ground arith

-- The live policy after a repoint is the document, at a new epoch; nothing else of the guard moves.
pub record IsRepointed (config : GuardConfig) (pointer : PolicyPointer) (doc : PolicyDoc)
    (hash : Hash) (config' : GuardConfig) (pointer' : PolicyPointer) : Type 0 where
  pub live : as_policy_doc config' ≡ doc
  pub stamped : config'.active_policy_hash ≡ hash
  pub epoch : config'.policy_epoch ≡ saturating_add u64_max config.policy_epoch 1
  pub governed : config'.governed ≡ config.governed
  pub paused : config'.paused ≡ config.paused
  pub treasury : config'.treasury ≡ config.treasury
  pub authority : config'.authority ≡ config.authority
  pub degrade : config'.degrade_mode ≡ config.degrade_mode
  pub active : pointer'.active_hash ≡ hash
  pub cleared : pointer'.pending_hash ≡ no_hash
  pub unapproved : pointer'.pending_approved_at ≡ pos 0
  pub timelock : pointer'.timelock_secs ≡ pointer.timelock_secs
  pub pinned : pointer'.pinned ≡ pointer.pinned

-- The guard with a document in force, and the pointer after a repoint.
abbrev live_under : GuardConfig → PolicyDoc → Hash → GuardConfig
live_under config doc new_hash = record config {
  flags = doc.flags;
  daily_gift_cap = doc.daily_gift_cap;
  per_tx_cap = doc.per_tx_cap;
  max_wallet_balance = doc.max_wallet_balance;
  transfers_per_day_cap = doc.transfers_per_day_cap;
  cooldown_secs = doc.cooldown_secs;
  attestation_schema = doc.attestation_schema;
  capability_ttl_secs = doc.capability_ttl_secs;
  policy = doc.policy;
  policy_epoch = saturating_add u64_max config.policy_epoch 1;
  active_policy_hash = new_hash;
}

abbrev pointing_at : PolicyPointer → Hash → PolicyPointer
pointing_at pointer new_hash = record pointer {
  active_hash = new_hash;
  pending_hash = no_hash;
  pending_approved_at = pos 0;
}

IsRepointed-of :
    (config : GuardConfig) (pointer : PolicyPointer) (doc : PolicyDoc) (hash : Hash)
    {r : GuardConfig × PolicyPointer}
    → (live_under config doc hash, pointing_at pointer hash) ≡ r
    → IsRepointed config pointer doc hash r.0 r.1
unfolding as_policy_doc
IsRepointed-of config pointer doc hash h =
    subst (λ (r : GuardConfig × PolicyPointer). IsRepointed config pointer doc hash r.0 r.1) h
      (record {
        live = refl;
        stamped = refl;
        epoch = refl;
        governed = refl;
        paused = refl;
        treasury = refl;
        authority = refl;
        degrade = refl;
        active = refl;
        cleared = refl;
        unapproved = refl;
        timelock = refl;
        pinned = refl;
      })

pub repoint_inv :
    (config : GuardConfig) (pointer : PolicyPointer) (doc : PolicyDoc) (hash : Hash)
    {r : GuardConfig × PolicyPointer}
    → apply_and_repoint config pointer doc hash ≡ ok r
    → IsRepointed config pointer doc hash r.0 r.1
unfolding apply_and_repoint as_policy_doc
repoint_inv config pointer doc hash h =
    let (_, e0, h0) = >>=-ok (require (leb_ℤ (pos 0) doc.capability_ttl_secs) invalid_policy) _ h in
    let (_, e1, h1) =
      >>=-ok
        (validate_policy doc.flags doc.daily_gift_cap doc.per_tx_cap config.aegis_program doc.policy
          config.attestation_issuer)
        _ h0 in
    IsRepointed-of config pointer doc hash (ok-inj _ refl h1)

pub record IsActivated (registry : RoleRegistry) (pointer : PolicyPointer) (version : PolicyVersion)
    (config : GuardConfig) (activator : Pubkey) (now : ℤ) (r : GuardConfig × PolicyPointer)
    : Type 0 where
  pub holds : Holds registry Role.activator activator
  pub unpinned : pointer.pinned ≡ false
  pub pending : pointer.pending_hash ≡ version.policy_hash
  pub approved : pointer.pending_approved_at ≢ pos 0
  pub elapsed : pointer.pending_approved_at +ℤ pointer.timelock_secs ≤ℤ now
  pub repointed : IsRepointed config pointer version.doc version.policy_hash r.0 r.1

-- An activation succeeds only for the holder of the activator role, on an unpinned pointer, for the
-- pending version, approved, once the whole timelock has passed since the approval; it then puts
-- exactly the version's document in force, at a new epoch, and clears the pending change.
pub activate_lem :
    (registry : RoleRegistry) (pointer : PolicyPointer) (version : PolicyVersion)
    (config : GuardConfig) (activator : Pubkey) (now : ℤ) (r : GuardConfig × PolicyPointer)
    → handle_activate_policy registry pointer version config activator now ≡ ok r
    → IsActivated registry pointer version config activator now r
unfolding handle_activate_policy
activate_lem registry pointer version config activator now r h =
    let (_, e0, h0) = >>=-ok (require_role registry Role.activator activator) _ h in
    let (_, e1, h1) = >>=-ok (require (not pointer.pinned) policy_pinned) _ h0 in
    let (_, e2, h2) =
      >>=-ok (require (pointer.pending_hash == version.policy_hash) policy_version_mismatch) _ h1 in
    let (_, e3, h3) =
      >>=-ok (require (not (eqb_ℤ pointer.pending_approved_at (pos 0))) policy_not_approved) _ h2 in
    let (ready, e4, h4) =
      >>=-ok (ok_or (checked_add_i64 pointer.pending_approved_at pointer.timelock_secs) overflow) _
        h3 in
    let (_, e5, h5) = >>=-ok (require (leb_ℤ ready now) timelock_active) _ h4 in
    let open_now = require_inv _ _ e1 in
    let named = require_inv _ _ e2 in
    let dated = require_inv _ _ e3 in
    let late = require_inv _ _ e5 in
    let sum_of = ready_inv pointer.pending_approved_at pointer.timelock_secs e4 in
    record {
      holds = require_role_inv registry Role.activator activator e0;
      unpinned = ground arith;
      pending = ground arith;
      approved = ground arith;
      elapsed = ground arith;
      repointed = repoint_inv config pointer version.doc version.policy_hash h5;
    }

-- What an approval writes into the version.
abbrev pub approved_as : PolicyVersion → Pubkey → ℤ → PolicyVersion
approved_as version approver now = record version { approver = approver; approved_at = now }

pub record IsApproved (registry : RoleRegistry) (pointer : PolicyPointer) (version : PolicyVersion)
    (approver : Pubkey) (now : ℤ) (r : PolicyVersion × PolicyPointer) : Type 0 where
  pub holds : Holds registry Role.approver approver
  pub unpinned : pointer.pinned ≡ false
  pub pending : pointer.pending_hash ≡ version.policy_hash
  pub separate : approver ≢ version.author
  pub result : r ≡ (approved_as version approver now, record pointer { pending_approved_at = now })

-- An approval succeeds only for the holder of the approver role, on an unpinned pointer, for the
-- pending version, and only if the approver is not the version's author; it writes the approver and
-- the time into the version and starts the timelock in the pointer, and changes nothing else.
pub approve_lem :
    (registry : RoleRegistry) (pointer : PolicyPointer) (version : PolicyVersion)
    (approver : Pubkey) (now : ℤ) (r : PolicyVersion × PolicyPointer)
    → handle_approve_policy registry pointer version approver now ≡ ok r
    → IsApproved registry pointer version approver now r
unfolding handle_approve_policy
approve_lem registry pointer version approver now r h =
    let (_, e0, h0) = >>=-ok (require_role registry Role.approver approver) _ h in
    let (_, e1, h1) = >>=-ok (require (not pointer.pinned) policy_pinned) _ h0 in
    let (_, e2, h2) =
      >>=-ok (require (pointer.pending_hash == version.policy_hash) policy_version_mismatch) _ h1 in
    let (_, e3, h3) = >>=-ok (require (not (approver == version.author)) self_approval) _ h2 in
    let (_, e4, h4) = >>=-ok (ok_or (checked_add_i64 now pointer.timelock_secs) overflow) _ h3 in
    let open_now = require_inv _ _ e1 in
    let named = require_inv _ _ e2 in
    let apart = require_inv _ _ e3 in
    record {
      holds = require_role_inv registry Role.approver approver e0;
      unpinned = ground arith;
      pending = ground arith;
      separate = ground arith;
      result = ok-inj _ h4 refl;
    }
