-- ===== src/Rewards.antt =====
-- The reward arithmetic that claim.rs, unstake.rs and emergency_rescue.rs share: the accumulator, the
-- settlement of a tier change, and the payment out of the reward vault.
pub mod Shares
pub mod Payments
pub mod Success
use dlmm_auto_sell_assets_in.Base.{
  ℕ, ◌+◌, ◌-◌, ◌*◌, ◌/◌, ◌≡◌, Bool, true, not, ltb, leb, ◌==◌, if◌then◌else◌,
}
use dlmm_auto_sell_assets_in.Base.Int.{ℤ}
use dlmm_auto_sell_assets_in.Errors.{
  Result, ok, insufficient_rewards, rent_exempt_violation, require, ◌>>=◌, ◌>>◌,
}
use dlmm_auto_sell_assets_in.Checked.{
  try_from, checked_add, checked_mul, checked_sub, checked_div, unwrap_or, or_overflow,
}
use dlmm_auto_sell_assets_in.Constants.{precision, emergency_vault_threshold}
use dlmm_auto_sell_assets_in.State.{Pubkey, StakingPool, StakerAccount}
use dlmm_auto_sell_assets_in.Runtime.{Bank, Runtime, sub_lamports, add_lamports}

-- The accounts that the handlers of a staker read and write.
pub record StakerContext : Type 0 where
  pub staking_pool : StakingPool
  pub staker_account : StakerAccount
  pub bank : Bank

-- `(staked_amount as u128).checked_mul(multiplier as u128)`
unfoldable pub weighted : ℕ → ℕ → Result ℕ
unfolding checked_mul
weighted staked_amount multiplier = or_overflow (checked_mul 128 staked_amount multiplier)

-- `weighted.checked_mul(reward_per_share)?.checked_div(PRECISION)`
unfoldable pub accumulated : ℕ → ℕ → Result ℕ
unfolding checked_mul checked_div
accumulated weight reward_per_share = do
  product ← or_overflow (checked_mul 128 weight reward_per_share)
  or_overflow (checked_div product precision)

-- `u64::try_from(accumulated.checked_sub(reward_debt)?)`
unfoldable pub owed_since : ℕ → ℕ → Result ℕ
unfolding checked_sub try_from
owed_since accumulated reward_debt = do
  owed ← or_overflow (checked_sub accumulated reward_debt)
  or_overflow (try_from 64 owed)

-- The pending rewards after settling at the old multiplier, if that was positive.
unfoldable pub settle_pending : StakingPool → StakerAccount → Result ℕ
settle_pending pool staker =
    if ltb 0 staker.current_multiplier
    then (do
      weighted_old ← weighted staker.staked_amount staker.current_multiplier
      accumulated_old ← accumulated weighted_old pool.reward_per_share
      pending ← owed_since accumulated_old staker.reward_debt
      or_overflow (checked_add 64 staker.pending_rewards pending))
    else ok staker.pending_rewards

-- The body of `if new_mult != staker.current_multiplier`.
unfoldable pub change_tier : ℕ → StakingPool → StakerAccount → Result (StakingPool × StakerAccount)
change_tier new_mult pool staker = do
  pending ← settle_pending pool staker
  weighted_old_stake ← weighted staker.staked_amount staker.current_multiplier
  weighted_new_stake ← weighted staker.staked_amount new_mult
  others ← or_overflow (checked_sub pool.total_weighted_stake weighted_old_stake)
  total ← or_overflow (checked_add 128 others weighted_new_stake)
  new_accumulated ← accumulated weighted_new_stake pool.reward_per_share
  ok (
    record pool { total_weighted_stake = total },
    record staker {
      pending_rewards = pending;
      current_multiplier = new_mult;
      reward_debt = new_accumulated;
    },
  )

unfoldable pub settle : ℕ → StakingPool → StakerAccount → Result (StakingPool × StakerAccount)
settle new_mult pool staker =
    if new_mult == staker.current_multiplier
    then ok (pool, staker)
    else change_tier new_mult pool staker

-- What is owed at the current multiplier since the last settlement: the accumulated share, and the
-- total with the pending rewards.
unfoldable pub owed_total : ℕ → StakingPool → StakerAccount → Result (ℕ × ℕ)
owed_total new_mult pool staker = do
  weight ← weighted staker.staked_amount new_mult
  acc ← accumulated weight pool.reward_per_share
  owed ← owed_since acc staker.reward_debt
  total ← or_overflow (checked_add 64 staker.pending_rewards owed)
  ok (acc, total)

-- The emergency check after a payment: the pool is paused if the vault is below the threshold.
unfoldable pub pause_if_low : ℕ → StakingPool → StakingPool
pause_if_low vault_lamports_after pool =
    if ltb vault_lamports_after emergency_vault_threshold
    then record pool { is_paused = true }
    else pool

-- The payment of `total` lamports from the reward vault to the user, with its two guards.
unfoldable pub pay_rewards : Runtime → Pubkey → ℕ → StakingPool → Bank → Result (StakingPool × Bank)
pay_rewards rt user total pool bank = do
  let vault_lamports = bank.lamports pool.reward_vault
  require (leb total vault_lamports) insufficient_rewards
  require (leb (rt.minimum_balance 0) (unwrap_or (checked_sub vault_lamports total) 0))
      rent_exempt_violation
  debited ← sub_lamports rt pool.reward_vault total bank
  credited ← add_lamports user total debited
  ok (pause_if_low (credited.lamports pool.reward_vault) pool, credited)
