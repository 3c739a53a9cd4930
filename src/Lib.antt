-- ===== src/Lib.antt =====
-- Verification of the vesta-core programs: a loyalty program on Solana (programs/vesta-core), the
-- transfer guard of its tokens (programs/argus) and the credential program they consult
-- (programs/aegis). A merchant mints points to customers who earn them; every transfer of the points
-- between wallets passes the guard's hook, whose policy a governed lifecycle changes; merchants of
-- one alliance let customers swap points between their tokens.
--
-- An instruction handler is a function from the accounts it loads, the clock and its arguments to a
-- `Result`: the accounts that it leaves, one of the program's error codes, Anchor's refusal of an
-- account, or a panic. An error reverts the transaction, so it carries no state. The calls
-- of the token program are functions that a handler takes: they succeed or fail the transaction.
--
--   Base      helpers: signed integers, checked and saturating arithmetic, `Result` and its `do`;
--             Base/Accounts the accounts that a handler unpacks itself; Base/Daily counters that
--             start again each day
--   Vesta     accounts, limits and errors of programs/vesta-core/src/state.rs, constants.rs, error.rs;
--             Vesta/Samples concrete accounts for the tests
--   Earn      instructions/earn_points.rs: `accrue` and `handle_earn_points`, and in Earn/Campaign
--             `handle_earn_points_campaign`; proofs in Earn/Mint, Breaker, Streak, Gate and
--             in Bonus, Quest and Joint of Earn/Campaign
--   Koinon    instructions/koinon.rs: alliances and members; Koinon/Swap is `handle_swap_points` and
--             util.rs; proofs in Koinon/Handover and in Rate, Budget,
--             Format and Terms of Koinon/Swap
--   Merchants what an owner does: Admin is instructions/merchant_admin.rs and merchant_statements.rs,
--             Trust merchant_trust.rs, Reserve merchant_reserve.rs, Clawback clawback.rs and Segments
--             segmentation.rs, each with its proofs in a child
--   Offers    instructions/offers.rs, proofs in Offers/Supply
--   Campaigns instructions/campaigns.rs, proofs in Campaigns/Sound
--   Achievements  instructions/achievements.rs, proofs in Achievements/Badges
--   Protocol  instructions/init_config.rs, admin.rs and migrate_config.rs, with lemmas in Protocol/Handover
--   Argus     accounts, flags, reasons and errors of programs/argus/src; Argus/Execute is the hook
--             (instructions/execute.rs), with its proofs in Inversion, Pace, Decision, Gift and Velocity
--             of Execute; Argus/Policy is instructions/policy.rs and admin.rs; Argus/Roles the role
--             registry; Argus/Governance is instructions/governance.rs, with single steps in
--             Lifecycle and Rollback of Governance and runs of instructions in Governance/Integrity;
--             Argus/Trust is instructions/trust.rs, Argus/Eligibility refresh_eligibility.rs,
--             Argus/Licensing licensing.rs and statements.rs, Argus/Lists the list entries of
--             admin.rs and open_wallet_state.rs
--   Aegis     programs/aegis/src: accounts in State, and a module for each file of instructions
--             (Issuer, Schema, Attestation, Verify, Policy, Accreditation). Attestation/Lifecycle
--             gives the status of one credential as a step relation. Registry is the program as the two
--             others call it
--   Tests     modules of this name run the handlers on concrete accounts
--
-- How the parts meet: the earn instructions and the redemption of an offer read the cache of verdicts
-- that Merchants/Segments writes, and the issuance posture that Merchants/Trust sets; the hook reads the
-- capability that Argus/Eligibility writes and the mode that Argus/Trust sets; these four call the
-- credential program through Aegis/Registry.
--
-- Unsigned integers are natural numbers with the limits of their types written out where the code
-- adds, multiplies or converts; `i64` is an integer with its range tested where the code tests it.
-- A public key or a 32-byte hash is only compared, so it is a number, 0 for the all-zero default. A
-- loop is recursion on the list that it walks; the digits of a number are taken on fuel, in 20 steps,
-- the number of digits of the largest `u64`.
--
-- Parameters: Token-2022's conversion of UI amounts, its mints, transfers, burns and set-up of mints
-- as calls that succeed or fail, the rent and the sizes of accounts, its unpacking of token accounts, the
-- derivation of program addresses, and the hash of a policy document. The programs that a merchant or
-- a guard names as its credential program are a `Registry`,
-- and `IsDeployed` says that the one at an address returns the verdicts of the modelled handlers. That an
-- account stands at the address which its seeds derive is part of how the accounts of a handler
-- are given.
--
-- Not modelled: the registration of merchants with the set-up of their mint, whose handlers mostly call
-- Token-2022; the set-up of a guard of programs/argus; events other than the hook's decision; entry
-- points, which pass their arguments on.
pub mod Base
pub mod Vesta
pub mod Earn
pub mod Koinon
pub mod Merchants
pub mod Offers
pub mod Campaigns
pub mod Achievements
pub mod Protocol
pub mod Argus
pub mod Aegis
