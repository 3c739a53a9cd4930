-- ===== src/Vesta.antt =====
-- The accounts and constants of the loyalty program (programs/vesta-core/src/state.rs,
-- constants.rs, error.rs). A public key and a 32-byte hash are only compared, so each is a number
-- and the all-zero default is 0.
pub mod Error
pub mod Constants
pub mod Merchant
pub mod Customer
pub mod Campaign
pub mod Alliance
pub mod Assurance
pub mod Catalog
pub mod Samples
