-- ===== src/Argus.antt =====
-- The transfer guard (programs/argus/src): the hook that Token-2022 calls on every transfer, and
-- the governed lifecycle of its policy. Public keys and 32-byte hashes are numbers, as in Vesta.
pub mod Error
pub mod Flag
pub mod Reason
pub mod State
pub mod Execute
pub mod Policy
pub mod Roles
pub mod Governance
pub mod Trust
pub mod Eligibility
pub mod Licensing
pub mod Lists
