-- ===== src/Argus/Error.antt =====
-- The error codes of the transfer guard (programs/argus/src/error.rs).
pub data GuardError : Type 0 where
  unauthorized_guard_init guard_already_initialized mint_mismatch state_not_opened unauthorized :
      GuardError
  pending_authority_mismatch invalid_policy unknown_flag mint_paused gifting_disabled : GuardError
  per_tx_exceeded balance_cap_exceeded cooldown_active transfer_count_exceeded : GuardError
  gift_cap_exceeded not_allowlisted deny_listed attestation_failed program_owned_destination :
      GuardError
  meta_list_mismatch not_transferring eligibility_stale aegis_program_mismatch : GuardError
  unsupported_version overflow role_unauthorized invalid_role self_approval policy_not_approved :
      GuardError
  timelock_active policy_pinned policy_version_mismatch policy_hash_mismatch no_pending_change :
      GuardError
  invalid_timelock trust_degraded invalid_degrade_target trust_anchor_missing : GuardError
  license_not_entitled invalid_entitlement insufficient_fee : GuardError
