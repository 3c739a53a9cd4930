-- ===== src/Argus/Flag.antt =====
-- The bits of a guard's policy (`flags` of programs/argus/src/constants.rs).
use vesta_core.Base.{ℕ}

abbrev pub block_program_owned : ℕ
block_program_owned = 1

abbrev pub allowlist_only : ℕ
allowlist_only = 2

abbrev pub denylist : ℕ
denylist = 4

abbrev pub require_attestation : ℕ
require_attestation = 8

abbrev pub gifting_disabled : ℕ
gifting_disabled = 16

-- `ALLOWLIST_ONLY | DENYLIST`
abbrev pub any_list : ℕ
any_list = 6

-- `!KNOWN`, in 16 bits
abbrev pub unknown : ℕ
unknown = 65504
