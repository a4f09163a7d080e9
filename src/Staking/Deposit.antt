-- ===== src/Staking/Deposit.antt =====
-- programs/brain-staking/src/instructions/deposit_rewards.rs
pub mod Accounting
pub mod Split
use dlmm_auto_sell_assets_in.Base.{ℕ, ◌+◌, ◌-◌, ◌*◌, ◌/◌, Bool, not, ltb, leb, ◌==◌, if◌then◌else◌}
use dlmm_auto_sell_assets_in.Errors.{
  Result, ok, pool_paused, zero_amount, below_min_reward_deposit, no_active_stakers, require, ◌>>=◌,
  ◌>>◌,
}
use dlmm_auto_sell_assets_in.Checked.{
  checked_add, checked_mul, checked_sub, checked_div, or_overflow,
}
use dlmm_auto_sell_assets_in.Constants.{precision, min_reward_deposit}
use dlmm_auto_sell_assets_in.State.{Pubkey, StakingPool}
use dlmm_auto_sell_assets_in.Runtime.{Bank, Runtime}

-- The protocol fee of a deposit.
unfoldable pub protocol_fee : ℕ → ℕ → Result ℕ
unfolding checked_mul checked_div
protocol_fee amount fee_bps = do
  scaled ← or_overflow (checked_mul 64 amount fee_bps)
  or_overflow (checked_div scaled 10000)

-- The accumulator after `net` lamports have come in.
unfoldable pub grow_accumulator : ℕ → StakingPool → Result ℕ
grow_accumulator net pool =
    if ltb 0 pool.total_weighted_stake
    then (do
      scaled ← or_overflow (checked_mul 128 net precision)
      reward_increment ← or_overflow (checked_div scaled pool.total_weighted_stake)
      or_overflow (checked_add 128 pool.reward_per_share reward_increment))
    else ok pool.reward_per_share

-- The two transfers: the fee to the treasury, unless it is zero, and the rest to the reward vault.
unfoldable pub transfer_deposit : Runtime → Pubkey → ℕ → ℕ → StakingPool → Bank → Result Bank
transfer_deposit rt authority fee net pool bank = do
  after_fee ← (if ltb 0 fee then rt.system_transfer authority pool.treasury fee bank else ok bank)
  rt.system_transfer authority pool.reward_vault net after_fee

-- `handle_deposit_rewards`
unfoldable pub handle_deposit_rewards :
    Runtime → Pubkey → ℕ → StakingPool → Bank → Result (StakingPool × Bank)
handle_deposit_rewards rt authority amount pool bank = do
  require (not pool.is_paused) pool_paused
  require (ltb 0 amount) zero_amount
  require (leb min_reward_deposit amount) below_min_reward_deposit
  require (ltb 0 pool.total_weighted_stake) no_active_stakers
  fee ← protocol_fee amount pool.protocol_fee_bps
  net ← or_overflow (checked_sub amount fee)
  bank' ← transfer_deposit rt authority fee net pool bank
  reward_per_share ← grow_accumulator net pool
  distributed ← or_overflow (checked_add 64 pool.total_rewards_distributed net)
  ok (
    record pool { reward_per_share = reward_per_share; total_rewards_distributed = distributed },
    bank',
  )
