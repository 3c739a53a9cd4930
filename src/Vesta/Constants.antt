-- ===== src/Vesta/Constants.antt =====
-- The limits of the loyalty program (programs/vesta-core/src/constants.rs).
use vesta_core.Base.{ℕ, List, [], ◌∷◌}

abbrev pub Pubkey : Type 0
Pubkey = ℕ

-- `Pubkey::default()`
abbrev pub default_key : Pubkey
default_key = 0

-- A string is the list of its bytes.
abbrev pub Text : Type 0
Text = List ℕ

abbrev pub bps_denominator : ℕ
bps_denominator = 10_000

abbrev pub max_segments : ℕ
max_segments = 8

-- `issue_status::NORMAL`
abbrev pub issue_normal : ℕ
issue_normal = 0

abbrev pub max_earn_per_tx : ℕ
max_earn_per_tx = 1_000_000

abbrev pub streak_bps_per_day : ℕ
streak_bps_per_day = 200

abbrev pub streak_days_cap : ℕ
streak_days_cap = 30

abbrev pub max_alliance_fee_bps : ℕ
max_alliance_fee_bps = 1_000

abbrev pub max_metadata_uri_len : ℕ
max_metadata_uri_len = 128

abbrev pub max_name_len : ℕ
max_name_len = 32

abbrev pub max_total_multiplier_bps : ℕ
max_total_multiplier_bps = 24_000

abbrev pub tier_thresholds : List ℕ
tier_thresholds = 0 ∷ 100_000 ∷ 1_000_000 ∷ 10_000_000 ∷ []

abbrev pub max_operators : ℕ
max_operators = 4

abbrev pub state_version : ℕ
state_version = 1

abbrev pub earn_frozen : ℕ
earn_frozen = 1

abbrev pub redemption_only : ℕ
redemption_only = 2

-- 24 hours
abbrev pub default_eligibility_ttl_secs : ℕ
default_eligibility_ttl_secs = 86_400

abbrev pub campaign_max_bps : ℕ
campaign_max_bps = 20_000

abbrev pub max_campaign_bonus : ℕ
max_campaign_bonus = 1_000_000

abbrev pub max_quest_target : ℕ
max_quest_target = 1_000

abbrev pub max_campaign_name_len : ℕ
max_campaign_name_len = 48

abbrev pub max_uri_len : ℕ
max_uri_len = 200
