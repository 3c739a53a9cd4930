-- ===== src/Aegis.antt =====
-- The credential registry (programs/aegis/src): issuers attest commitments about subjects, verifiers
-- ask for a verdict on a credential, on a named policy or on an issuer's accreditation. Public keys
-- and 32-byte hashes are numbers, as in Vesta.
pub mod Error
pub mod State
pub mod Issuer
pub mod Attestation
pub mod Verify
pub mod Policy
pub mod Accreditation
pub mod Schema
pub mod Registry
pub mod Samples
