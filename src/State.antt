-- ===== src/State.antt =====
-- programs/brain-staking/src/state: the accounts of the program, field by field. A `Pubkey` is the
-- number that its 32 bytes spell, so that `Pubkey::default()` is 0; unsigned integers are numbers,
-- whose widths the operations check; timestamps are integers.
use Prim.Native.String.{String}
use dlmm_auto_sell_assets_in.Base.{ℕ, Bool, List}
use dlmm_auto_sell_assets_in.Base.Int.{ℤ}

abbrev pub Pubkey : Type 0
Pubkey = ℕ

abbrev pub default_pubkey : Pubkey
default_pubkey = 0

-- state/staking_pool.rs
pub record StakingPool : Type 0 where
  pub owner : Pubkey
  pub crank : Pubkey
  pub brain_mint : Pubkey
  pub brain_vault : Pubkey
  pub reward_vault : Pubkey
  pub treasury : Pubkey
  pub total_staked : ℕ
  pub total_weighted_stake : ℕ
  pub reward_per_share : ℕ
  pub total_rewards_distributed : ℕ
  pub protocol_fee_bps : ℕ
  pub min_stake_amount : ℕ
  pub pending_owner : Pubkey
  pub is_paused : Bool
  pub bump : ℕ
  pub brain_vault_bump : ℕ
  pub reward_vault_bump : ℕ

-- state/staker_account.rs
pub record StakerAccount : Type 0 where
  pub owner : Pubkey
  pub staked_amount : ℕ
  pub stake_timestamp : ℤ
  pub reward_debt : ℕ
  pub pending_rewards : ℕ
  pub last_claim_timestamp : ℤ
  pub current_multiplier : ℕ
  pub bump : ℕ

-- state/dlmm_exit.rs; the status is 0 while active, 1 when completed, 2 when terminated.
pub record DlmmExit : Type 0 where
  pub pool : Pubkey
  pub owner : Pubkey
  pub asset_mint : Pubkey
  pub dlmm_pool : Pubkey
  pub position : Pubkey
  pub total_sol_claimed : ℕ
  pub status : ℕ
  pub created_at : ℤ
  pub completed_at : ℤ
  pub proposal_id : ℕ
  pub last_claimed_amount : ℕ
  pub bump : ℕ

-- state/governance_config.rs
pub record GovernanceConfig : Type 0 where
  pub pool : Pubkey
  pub next_proposal_id : ℕ
  pub auto_execute : Bool
  pub min_quorum_bps : ℕ
  pub bump : ℕ

-- state/proposal.rs; the status is 0 while active, 1 when passed, 2 when rejected, 3 when cancelled.
pub record Proposal : Type 0 where
  pub id : ℕ
  pub pool : Pubkey
  pub proposer : Pubkey
  pub title : String
  pub description_uri : String
  pub proposal_type : ℕ
  pub options : List String
  pub vote_counts : List ℕ
  pub voting_starts : ℤ
  pub voting_ends : ℤ
  pub status : ℕ
  pub total_vote_weight : ℕ
  pub winning_option_index : ℕ
  pub executed : Bool
  pub passed_at : ℤ
  pub quorum_snapshot : ℕ
  pub bump : ℕ

-- state/vote_record.rs
pub record VoteRecord : Type 0 where
  pub proposal_id : ℕ
  pub voter : Pubkey
  pub option_index : ℕ
  pub weight : ℕ
  pub voted_at : ℤ
  pub bump : ℕ
