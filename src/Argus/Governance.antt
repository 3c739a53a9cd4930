-- ===== src/Argus/Governance.antt =====
-- The governed lifecycle of a policy (programs/argus/src/instructions/governance.rs): propose,
-- approve, activate after a timelock, roll back, pin, and the change of a role.
pub mod Integrity
pub mod Lifecycle
pub mod Rollback
mod Tests
use vesta_core.Base.{
  ℕ, ◌+◌, ◌*◌, Bool, true, false, ◌&&◌, not, Option, none, some, ℤ, pos, ◌+ℤ◌, leb_ℤ, eqb_ℤ, ◌==◌,
  if◌then◌else◌, Result, ok, err, ◌>>=◌, ◌>>◌, require, ok_or, saturating_add, u64_max,
  checked_add_i64,
}
use vesta_core.Argus.Error.{
  GuardError, unauthorized, policy_pinned, invalid_timelock, role_unauthorized,
  policy_hash_mismatch, invalid_policy, policy_version_mismatch, self_approval, overflow,
  policy_not_approved, timelock_active, no_pending_change,
}
use vesta_core.Argus.State.{Pubkey, default_key, Hash, no_hash, state_version, GuardConfig}
use vesta_core.Argus.Policy.{PolicyDoc, as_policy_doc, validate_policy}
use vesta_core.Argus.Roles.{Role, RoleRegistry, authority_for, set_role, require_role, role_of}

pub record PolicyVersion : Type 0 where
  pub version : ℕ
  pub mint : Pubkey
  pub policy_hash : Hash
  pub doc : PolicyDoc
  pub author : Pubkey
  pub approver : Pubkey
  pub proposed_at : ℤ
  pub approved_at : ℤ
  pub bump : ℕ

pub record PolicyPointer : Type 0 where
  pub version : ℕ
  pub mint : Pubkey
  pub active_hash : Hash
  pub pending_hash : Hash
  pub pending_approved_at : ℤ
  pub timelock_secs : ℤ
  pub pinned : Bool
  pub bump : ℕ

pub record RoleAssignment : Type 0 where
  pub role_admin : Pubkey
  pub author : Pubkey
  pub approver : Pubkey
  pub activator : Pubkey
  pub pause_operator : Pubkey
  pub reporter : Pubkey

-- The bumps that Anchor finds for the three new accounts.
pub record Bumps : Type 0 where
  pub genesis_version : ℕ
  pub role_registry : ℕ
  pub policy_pointer : ℕ

pub record Adopted : Type 0 where
  pub guard_config : GuardConfig
  pub role_registry : RoleRegistry
  pub policy_pointer : PolicyPointer
  pub genesis_version : PolicyVersion

abbrev pub max_governance_timelock_secs : ℕ
max_governance_timelock_secs = 365 * 86_400

-- `PolicyDoc::hash`, the SHA-256 of the document's encoding, is `hash`; `none` is a failed encoding.
pub handle_initialize_governance :
    (PolicyDoc → Option Hash)
    → Bumps
    → GuardConfig
    → Pubkey
    → Pubkey
    → Hash
    → RoleAssignment
    → ℤ
    → ℤ
    → Result GuardError Adopted
handle_initialize_governance hash bumps config authority mint genesis_hash roles timelock_secs now =
    do
      require (config.authority == authority) unauthorized
      require (not config.governed) policy_pinned
      require
          (leb_ℤ (pos 0) timelock_secs && leb_ℤ timelock_secs (pos max_governance_timelock_secs))
          invalid_timelock
      require (not (roles.role_admin == default_key)) role_unauthorized
      let doc = as_policy_doc config
      computed ← ok_or (hash doc) invalid_policy
      require (computed == genesis_hash) policy_hash_mismatch
      ok (record {
        guard_config = record config { governed = true; active_policy_hash = genesis_hash };
        role_registry = record {
          version = state_version;
          mint = mint;
          role_admin = roles.role_admin;
          author = roles.author;
          approver = roles.approver;
          activator = roles.activator;
          pause_operator = roles.pause_operator;
          reporter = roles.reporter;
          pending_role = 0;
          pending_authority = default_key;
          pending_after = pos 0;
          bump = bumps.role_registry;
        };
        policy_pointer = record {
          version = state_version;
          mint = mint;
          active_hash = genesis_hash;
          pending_hash = no_hash;
          pending_approved_at = pos 0;
          timelock_secs = timelock_secs;
          pinned = false;
          bump = bumps.policy_pointer;
        };
        genesis_version = record {
          version = state_version;
          mint = mint;
          policy_hash = genesis_hash;
          doc = doc;
          author = authority;
          approver = authority;
          proposed_at = now;
          approved_at = now;
          bump = bumps.genesis_version;
        };
      })

pub handle_propose_policy :
    (PolicyDoc → Option Hash)
    → ℕ
    → RoleRegistry
    → PolicyPointer
    → Pubkey
    → Hash
    → PolicyDoc
    → ℤ
    → Result GuardError (PolicyVersion × PolicyPointer)
unfolding require_role
handle_propose_policy hash bump registry pointer author policy_hash doc now = do
  require_role registry Role.author author
  require (not pointer.pinned) policy_pinned
  computed ← ok_or (hash doc) invalid_policy
  require (computed == policy_hash) policy_hash_mismatch
  ok (
    record {
      version = state_version;
      mint = pointer.mint;
      policy_hash = policy_hash;
      doc = doc;
      author = author;
      approver = default_key;
      proposed_at = now;
      approved_at = pos 0;
      bump = bump;
    },
    record pointer { pending_hash = policy_hash; pending_approved_at = pos 0 },
  )

pub handle_approve_policy :
    RoleRegistry
    → PolicyPointer
    → PolicyVersion
    → Pubkey
    → ℤ
    → Result GuardError (PolicyVersion × PolicyPointer)
unfolding require_role
handle_approve_policy registry pointer version approver now = do
  require_role registry Role.approver approver
  require (not pointer.pinned) policy_pinned
  require (pointer.pending_hash == version.policy_hash) policy_version_mismatch
  require (not (approver == version.author)) self_approval
  _ ← ok_or (checked_add_i64 now pointer.timelock_secs) overflow
  ok (
    record version { approver = approver; approved_at = now },
    record pointer { pending_approved_at = now },
  )

-- Writes the document onto the live policy, bumps its epoch and clears the pending change.
pub apply_and_repoint :
    GuardConfig → PolicyPointer → PolicyDoc → Hash → Result GuardError (GuardConfig × PolicyPointer)
unfolding validate_policy
apply_and_repoint config pointer doc new_hash = do
  require (leb_ℤ (pos 0) doc.capability_ttl_secs) invalid_policy
  validate_policy doc.flags doc.daily_gift_cap doc.per_tx_cap config.aegis_program doc.policy
      config.attestation_issuer
  ok (
    record config {
      flags = doc.flags;
      daily_gift_cap = doc.daily_gift_cap;
      per_tx_cap = doc.per_tx_cap;
      max_wallet_balance = doc.max_wallet_balance;
      transfers_per_day_cap = doc.transfers_per_day_cap;
      cooldown_secs = doc.cooldown_secs;
      attestation_schema = doc.attestation_schema;
      capability_ttl_secs = doc.capability_ttl_secs;
      policy = doc.policy;
      policy_epoch = saturating_add u64_max config.policy_epoch 1;
      active_policy_hash = new_hash;
    },
    record pointer { active_hash = new_hash; pending_hash = no_hash; pending_approved_at = pos 0 },
  )

pub handle_activate_policy :
    RoleRegistry
    → PolicyPointer
    → PolicyVersion
    → GuardConfig
    → Pubkey
    → ℤ
    → Result GuardError (GuardConfig × PolicyPointer)
unfolding require_role apply_and_repoint
handle_activate_policy registry pointer version config activator now = do
  require_role registry Role.activator activator
  require (not pointer.pinned) policy_pinned
  require (pointer.pending_hash == version.policy_hash) policy_version_mismatch
  require (not (eqb_ℤ pointer.pending_approved_at (pos 0))) policy_not_approved
  ready_at ← ok_or (checked_add_i64 pointer.pending_approved_at pointer.timelock_secs) overflow
  require (leb_ℤ ready_at now) timelock_active
  apply_and_repoint config pointer version.doc version.policy_hash

pub handle_rollback_policy :
    RoleRegistry
    → PolicyPointer
    → PolicyVersion
    → GuardConfig
    → Pubkey
    → Result GuardError (GuardConfig × PolicyPointer)
unfolding require_role apply_and_repoint
handle_rollback_policy registry pointer version config activator = do
  require_role registry Role.activator activator
  require (not pointer.pinned) policy_pinned
  require (not (eqb_ℤ version.approved_at (pos 0))) policy_not_approved
  apply_and_repoint config pointer version.doc version.policy_hash

pub handle_pin_policy : RoleRegistry → PolicyPointer → Pubkey → Result GuardError PolicyPointer
unfolding require_role
handle_pin_policy registry pointer signer = do
  require_role registry Role.role_admin signer
  ok (record pointer { pinned = true })

abbrev is_role_admin : Role → Bool
is_role_admin Role.role_admin = true
is_role_admin _ = false

pub handle_propose_role_change :
    RoleRegistry → PolicyPointer → Pubkey → ℕ → Pubkey → ℤ → Result GuardError RoleRegistry
unfolding require_role role_of
handle_propose_role_change registry pointer signer role authority now = do
  require_role registry Role.role_admin signer
  target ← role_of role
  require (if is_role_admin target then not (authority == default_key) else true) role_unauthorized
  apply_after ← ok_or (checked_add_i64 now pointer.timelock_secs) overflow
  ok (record registry {
    pending_role = role;
    pending_authority = authority;
    pending_after = apply_after;
  })

pub handle_apply_role_change : RoleRegistry → Pubkey → ℤ → Result GuardError RoleRegistry
unfolding require_role role_of set_role
handle_apply_role_change registry signer now = do
  require_role registry Role.role_admin signer
  require (not (eqb_ℤ registry.pending_after (pos 0))) no_pending_change
  require (leb_ℤ registry.pending_after now) timelock_active
  role ← role_of registry.pending_role
  let changed = set_role registry role registry.pending_authority
  ok (record changed { pending_role = 0; pending_authority = default_key; pending_after = pos 0 })
