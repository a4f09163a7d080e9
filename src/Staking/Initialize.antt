-- ===== src/Staking/Initialize.antt =====
-- programs/brain-staking/src/instructions/initialize.rs
use dlmm_auto_sell_assets_in.Base.{ℕ, ltb, leb, false}
use dlmm_auto_sell_assets_in.Errors.{Result, ok, invalid_fee, invalid_min_stake, require, ◌>>◌}
use dlmm_auto_sell_assets_in.Constants.{max_protocol_fee_bps}
use dlmm_auto_sell_assets_in.State.{Pubkey, default_pubkey, StakingPool}

-- The keys and bumps of the accounts that `Initialize` names.
pub record InitializeAccounts : Type 0 where
  pub owner : Pubkey
  pub brain_mint : Pubkey
  pub brain_vault : Pubkey
  pub reward_vault : Pubkey
  pub treasury : Pubkey
  pub pool_bump : ℕ
  pub brain_vault_bump : ℕ
  pub reward_vault_bump : ℕ

-- `handle_initialize`
unfoldable pub handle_initialize : InitializeAccounts → Pubkey → ℕ → ℕ → Result StakingPool
handle_initialize a crank protocol_fee_bps min_stake_amount = do
  require (leb protocol_fee_bps max_protocol_fee_bps) invalid_fee
  require (ltb 0 min_stake_amount) invalid_min_stake
  ok (record {
    owner = a.owner;
    crank = crank;
    brain_mint = a.brain_mint;
    brain_vault = a.brain_vault;
    reward_vault = a.reward_vault;
    treasury = a.treasury;
    total_staked = 0;
    total_weighted_stake = 0;
    reward_per_share = 0;
    total_rewards_distributed = 0;
    protocol_fee_bps = protocol_fee_bps;
    min_stake_amount = min_stake_amount;
    pending_owner = default_pubkey;
    is_paused = false;
    bump = a.pool_bump;
    brain_vault_bump = a.brain_vault_bump;
    reward_vault_bump = a.reward_vault_bump;
  })
