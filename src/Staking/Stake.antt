-- ===== src/Staking/Stake.antt =====
-- programs/brain-staking/src/instructions/stake.rs
use dlmm_auto_sell_assets_in.Base.{ℕ, not, ltb, leb}
use dlmm_auto_sell_assets_in.Base.Int.{ℤ}
use dlmm_auto_sell_assets_in.Errors.{
  Result, ok, pool_paused, zero_amount, below_min_stake, above_max_stake, require, ◌>>=◌, ◌>>◌,
}
use dlmm_auto_sell_assets_in.Checked.{checked_add, or_overflow}
use dlmm_auto_sell_assets_in.Constants.{max_stake_amount}
use dlmm_auto_sell_assets_in.State.{Pubkey, StakingPool, StakerAccount}
use dlmm_auto_sell_assets_in.Runtime.{Bank, Runtime}
use dlmm_auto_sell_assets_in.Rewards.{StakerContext}

-- The staker account that the handler fills in; `bump` is what the framework found.
abbrev pub new_staker : Pubkey → ℕ → ℤ → ℕ → StakerAccount
new_staker user amount now bump = record {
  owner = user;
  staked_amount = amount;
  stake_timestamp = now;
  reward_debt = 0;
  pending_rewards = 0;
  last_claim_timestamp = now;
  current_multiplier = 0;
  bump = bump;
}

-- `handle_stake`
unfoldable pub handle_stake :
    Runtime → Pubkey → Pubkey → ℤ → ℕ → ℕ → StakingPool → Bank → Result StakerContext
handle_stake rt user user_brain_ata now bump amount pool bank = do
  require (not pool.is_paused) pool_paused
  require (ltb 0 amount) zero_amount
  require (leb pool.min_stake_amount amount) below_min_stake
  require (leb amount max_stake_amount) above_max_stake
  paid ← rt.token_transfer user user_brain_ata pool.brain_vault amount bank
  total ← or_overflow (checked_add 64 pool.total_staked amount)
  ok (record {
    staking_pool = record pool { total_staked = total };
    staker_account = new_staker user amount now bump;
    bank = paid;
  })
