-- ===== src/Argus/Governance/Tests.antt =====
-- Runs of the governance instructions on concrete accounts.
use vesta_core.Base.{
  ◌+◌, ◌≡◌, refl, true, false, Option, none, some, List, [], ◌∷◌, pos, ◌+ℤ◌, arith, ok, Succeeds,
}
use vesta_core.Argus.State.{Hash, GuardConfig}
use vesta_core.Argus.Policy.{PolicyDoc, as_policy_doc, validate_policy}
use vesta_core.Argus.Roles.{Role, RoleRegistry, require_role, authority_for}
use vesta_core.Argus.Governance.{
  PolicyVersion, PolicyPointer, RoleAssignment, Bumps, handle_initialize_governance,
  handle_approve_policy, handle_activate_policy, handle_rollback_policy, apply_and_repoint,
}
use vesta_core.Argus.Governance.Lifecycle.{Holds, IsActivated, activate_lem}
use vesta_core.Argus.Governance.Rollback.{IsValidFor, rollback_skips_timelock}
use vesta_core.Argus.Governance.Integrity.{
  World, put, Op, propose, approve, activate, rollback, set_paused, run, IsAnchored,
}
use vesta_core.Argus.Governance.Integrity.Runs.{adopted_world, governance_integrity, pin_is_final}

-- A policy's hash here is its cap for one transfer, and a number above.
abbrev by_cap : PolicyDoc → Option Hash
by_cap doc = some (1_000 + doc.per_tx_cap)

abbrev guard : GuardConfig
guard = record {
  version = 1;
  mint = 10;
  authority = 11;
  pending_authority = none;
  treasury = 12;
  aegis_program = 3;
  attestation_issuer = 13;
  policy = 0;
  policy_epoch = 5;
  screening_epoch = 6;
  paused = false;
  flags = 5;
  daily_gift_cap = 90;
  per_tx_cap = 50;
  max_wallet_balance = 250;
  transfers_per_day_cap = 3;
  cooldown_secs = 60;
  attestation_schema = 1;
  capability_ttl_secs = pos 3600;
  governed = false;
  active_policy_hash = 0;
  degrade_mode = 0;
  bump = 255;
}

abbrev looser : PolicyDoc
looser = record {
  flags = 0;
  daily_gift_cap = 900;
  per_tx_cap = 500;
  max_wallet_balance = 0;
  transfers_per_day_cap = 0;
  cooldown_secs = 0;
  attestation_schema = 1;
  capability_ttl_secs = pos 3600;
  policy = 0;
}

abbrev team : RoleAssignment
team = record {
  role_admin = 30;
  author = 31;
  approver = 32;
  activator = 33;
  pause_operator = 34;
  reporter = 35;
}

abbrev bumps : Bumps
bumps = record { genesis_version = 1; role_registry = 2; policy_pointer = 3 }

adopted :
    Succeeds
      (handle_initialize_governance by_cap bumps guard 11 10 1_050 team (pos 86_400) (pos 1_000))
unfolding handle_initialize_governance as_policy_doc
adopted = (_, refl)

-- A second policy is proposed, approved and activated; then a strange key tries to reconfigure.
abbrev history : List Op
history =
    propose 9 31 1_500 looser (pos 2_000)
    ∷ approve 32 1_500 (pos 3_000)
    ∷ activate 33 1_500 (pos 89_400)
    ∷ set_paused 4 true
    ∷ rollback 33 1_050
    ∷ []

governance_integrity_example :
    IsAnchored by_cap 1_050 (run by_cap (adopted_world adopted.0) history)
governance_integrity_example =
    governance_integrity by_cap bumps guard 11 10 1_050 team (pos 86_400) (pos 1_000) adopted.0
      history adopted.1

abbrev registry : RoleRegistry
registry = record {
  version = 1;
  mint = 10;
  role_admin = 30;
  author = 31;
  approver = 32;
  activator = 33;
  pause_operator = 34;
  reporter = 35;
  pending_role = 0;
  pending_authority = 0;
  pending_after = pos 0;
  bump = 2;
}

abbrev pointer : PolicyPointer
pointer = record {
  version = 1;
  mint = 10;
  active_hash = 1_050;
  pending_hash = 1_500;
  pending_approved_at = pos 0;
  timelock_secs = pos 86_400;
  pinned = false;
  bump = 3;
}

abbrev proposed : PolicyVersion
proposed = record {
  version = 1;
  mint = 10;
  policy_hash = 1_500;
  doc = looser;
  author = 31;
  approver = 0;
  proposed_at = pos 2_000;
  approved_at = pos 0;
  bump = 9;
}

abbrev governed_guard : GuardConfig
governed_guard = record guard { governed = true; active_policy_hash = 1_050 }

abbrev pinned_world : World
pinned_world = record {
  config = governed_guard;
  registry = registry;
  pointer = record pointer { pinned = true };
  versions = put 1_500 proposed (λ h. none);
}

pin_is_final_example :
    ((run by_cap pinned_world history).pointer.pinned ≡ true)
    × (as_policy_doc (run by_cap pinned_world history).config ≡ as_policy_doc governed_guard)
    × ((run by_cap pinned_world history).config.active_policy_hash ≡ 1_050)
pin_is_final_example = pin_is_final by_cap pinned_world history refl refl

approved : Succeeds (handle_approve_policy registry pointer proposed 32 (pos 3_000))
unfolding handle_approve_policy require_role authority_for ◌+ℤ◌
approved = (_, refl)

abbrev waiting : PolicyPointer
waiting = record pointer { pending_approved_at = pos 3_000 }

activated :
    Succeeds (handle_activate_policy registry waiting proposed governed_guard 33 (pos 89_400))
unfolding handle_activate_policy require_role authority_for apply_and_repoint validate_policy ◌+ℤ◌
activated = (_, refl)

activate_lem_example :
    IsActivated registry waiting proposed governed_guard 33 (pos 89_400) activated.0
activate_lem_example =
    activate_lem registry waiting proposed governed_guard 33 (pos 89_400) activated.0 activated.1

looser-valid : IsValidFor governed_guard looser
unfolding validate_policy
looser-valid = (refl, refl)

activator-Holds : Holds registry Role.activator 33
unfolding authority_for
activator-Holds = (refl, omega arith)

rollback_skips_timelock_example :
    (s : GuardConfig × PolicyPointer) × (handle_rollback_policy registry approved.0.1 approved.0.0
        governed_guard 33
      ≡ ok s)
    × (as_policy_doc s.0 ≡ looser)
rollback_skips_timelock_example =
    rollback_skips_timelock registry pointer proposed governed_guard 32 33 (pos 3_000) approved.0
      approved.1 (λ e. ground (e, arith)) activator-Holds looser-valid
