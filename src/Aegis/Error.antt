-- ===== src/Aegis/Error.antt =====
-- The error codes of the credential registry (programs/aegis/src/error.rs).
pub data AegisError : Type 0 where
  invalid_name string_too_long unauthorized authority_only pending_authority_mismatch : AegisError
  issuer_paused invalid_expiry invalid_valid_from already_revoked schema_deprecated : AegisError
  schema_mismatch disclosure_too_deep unsupported_version unknown_predicate : AegisError
  permitted_schemas_required : AegisError
