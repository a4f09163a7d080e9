-- ===== src/Staking/Unstake.antt =====
-- programs/brain-staking/src/instructions/unstake.rs
pub mod Payout
pub mod Outcome
pub mod Effect
pub mod Success
use dlmm_auto_sell_assets_in.Base.{ℕ, ◌+◌, ◌*◌, ◌/◌, Bool, ◌&&◌, ltb, leb, ◌==◌, if◌then◌else◌}
use dlmm_auto_sell_assets_in.Base.Int.{ℤ}
use dlmm_auto_sell_assets_in.Errors.{Result, ok, ◌>>=◌, ◌>>◌}
use dlmm_auto_sell_assets_in.Checked.{
  checked_add, checked_mul, checked_sub, checked_div, or_overflow,
}
use dlmm_auto_sell_assets_in.Constants.{precision}
use dlmm_auto_sell_assets_in.State.{Pubkey, StakingPool, StakerAccount}
use dlmm_auto_sell_assets_in.Runtime.{Bank, Runtime}
use dlmm_auto_sell_assets_in.Multiplier.{get_multiplier}
use dlmm_auto_sell_assets_in.Rewards.{StakerContext, weighted, owed_total, settle, pay_rewards}

-- The pending rewards with what is owed at the current multiplier.
unfoldable pub accrue : ℕ → StakingPool → StakerAccount → Result ℕ
accrue new_mult pool staker =
    if ltb 0 new_mult
    then (do (acc, total) ← owed_total new_mult pool staker; ok total)
    else ok staker.pending_rewards

-- Pre-cliff: forfeited rewards go to the remaining stakers through the accumulator.
unfoldable pub forfeit : ℕ → StakingPool → Result StakingPool
forfeit forfeited pool =
    if ltb 0 forfeited && ltb 0 pool.total_weighted_stake
    then (do
      scaled ← or_overflow (checked_mul 128 forfeited precision)
      redistribution ← or_overflow (checked_div scaled pool.total_weighted_stake)
      reward_per_share ← or_overflow (checked_add 128 pool.reward_per_share redistribution)
      ok (record pool { reward_per_share = reward_per_share }))
    else ok pool

-- Step 2 of the handler: pay the pending rewards past the cliff, forfeit them before it.
unfoldable pub pay_or_forfeit :
    Runtime → Pubkey → ℕ → ℕ → StakingPool → Bank → Result (StakingPool × Bank)
pay_or_forfeit rt user new_mult pending pool bank =
    if ltb 0 new_mult
    then if ltb 0 pending then pay_rewards rt user pending pool bank else ok (pool, bank)
    else do pool' ← forfeit pending pool; ok (pool', bank)

-- Step 4: take the stake out of the pool's totals.
unfoldable pub remove_stake : ℕ → ℕ → StakingPool → Result StakingPool
remove_stake staked_amount new_mult pool = do
  current_weighted ← weighted staked_amount new_mult
  total_weighted ← or_overflow (checked_sub pool.total_weighted_stake current_weighted)
  total ← or_overflow (checked_sub pool.total_staked staked_amount)
  ok (record pool { total_weighted_stake = total_weighted; total_staked = total })

-- `handle_unstake`; the staker account is closed at its end, so it is no part of the result.
unfoldable pub handle_unstake :
    Runtime → Pubkey → Pubkey → ℤ → StakerContext → Result (StakingPool × Bank)
handle_unstake rt user user_brain_ata now c = do
  let new_mult = get_multiplier c.staker_account.stake_timestamp now
  (settled, staker) ← settle new_mult c.staking_pool c.staker_account
  pending ← accrue new_mult settled staker
  (pool, bank) ← pay_or_forfeit rt user new_mult pending settled c.bank
  returned ← rt.token_transfer rt.pool_key pool.brain_vault user_brain_ata staker.staked_amount bank
  pool' ← remove_stake staker.staked_amount new_mult pool
  ok (pool', returned)
