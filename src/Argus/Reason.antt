-- ===== src/Argus/Reason.antt =====
-- The reason codes of a transfer decision (`reason` of programs/argus/src/constants.rs).
use vesta_core.Base.{ℕ}

abbrev pub issuer_flow : ℕ
issuer_flow = 0

abbrev pub treasury_flow : ℕ
treasury_flow = 1

abbrev pub gift : ℕ
gift = 2

abbrev pub noop : ℕ
noop = 3

abbrev pub mint_paused : ℕ
mint_paused = 10

abbrev pub gifting_disabled : ℕ
gifting_disabled = 11

abbrev pub program_owned_dest : ℕ
program_owned_dest = 12

abbrev pub not_allowlisted : ℕ
not_allowlisted = 13

abbrev pub deny_listed : ℕ
deny_listed = 14

abbrev pub per_tx_exceeded : ℕ
per_tx_exceeded = 16

abbrev pub balance_cap : ℕ
balance_cap = 17

abbrev pub cooldown : ℕ
cooldown = 18

abbrev pub transfer_count : ℕ
transfer_count = 19

abbrev pub daily_cap : ℕ
daily_cap = 20

abbrev pub eligibility_stale : ℕ
eligibility_stale = 23

abbrev pub trust_degraded : ℕ
trust_degraded = 24
