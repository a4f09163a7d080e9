-- ===== src/Constants.antt =====
-- programs/brain-staking/src/constants.rs: the numeric constants. The seeds of the program-derived
-- addresses are not modelled: an account is found by the key that its seeds determine.
use dlmm_auto_sell_assets_in.Base.{ℕ}

-- `PRECISION`, the scale of `reward_per_share`.
abbrev pub precision : ℕ
precision = 1000000000000

-- Seven, thirty and ninety days in seconds.
abbrev pub tier_1_threshold : ℕ
tier_1_threshold = 604800

abbrev pub tier_2_threshold : ℕ
tier_2_threshold = 2592000

abbrev pub tier_3_threshold : ℕ
tier_3_threshold = 7776000

abbrev pub max_protocol_fee_bps : ℕ
max_protocol_fee_bps = 500

abbrev pub min_reward_deposit : ℕ
min_reward_deposit = 1000000000

abbrev pub max_stake_amount : ℕ
max_stake_amount = 10000000000000

abbrev pub emergency_vault_threshold : ℕ
emergency_vault_threshold = 5000000000

abbrev pub max_proposal_options : ℕ
max_proposal_options = 5

abbrev pub min_proposal_options : ℕ
min_proposal_options = 2

abbrev pub max_title_len : ℕ
max_title_len = 64

abbrev pub proposal_type_sell : ℕ
proposal_type_sell = 1

abbrev pub proposal_type_treasury_update : ℕ
proposal_type_treasury_update = 2

abbrev pub proposal_type_config_update : ℕ
proposal_type_config_update = 3

-- 24 and 48 hours in seconds.
abbrev pub min_voting_period_seconds : ℕ
min_voting_period_seconds = 86400

abbrev pub min_execution_delay_seconds : ℕ
min_execution_delay_seconds = 172800
