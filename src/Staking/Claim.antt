-- ===== src/Staking/Claim.antt =====
-- programs/brain-staking/src/instructions/claim.rs
pub mod Payout
pub mod Effect
pub mod Success
use dlmm_auto_sell_assets_in.Base.{ℕ, Bool, not, ltb, leb, ◌==◌, if◌then◌else◌}
use dlmm_auto_sell_assets_in.Base.Int.{ℤ}
use dlmm_auto_sell_assets_in.Errors.{Result, ok, pool_paused, require, ◌>>=◌, ◌>>◌}
use dlmm_auto_sell_assets_in.Checked.{checked_add, or_overflow}
use dlmm_auto_sell_assets_in.State.{Pubkey, StakingPool, StakerAccount}
use dlmm_auto_sell_assets_in.Runtime.{Bank, Runtime}
use dlmm_auto_sell_assets_in.Multiplier.{get_multiplier}
use dlmm_auto_sell_assets_in.Rewards.{StakerContext, owed_total, settle, pay_rewards}

-- The transfer and the update of the staker, for a total that is not zero.
unfoldable pub pay_claim :
    Runtime → Pubkey → ℤ → ℕ → ℕ → StakingPool → StakerAccount → Bank → Result StakerContext
pay_claim rt user now accumulated total pool staker bank = do
  (pool', bank') ← pay_rewards rt user total pool bank
  ok (record {
    staking_pool = pool';
    staker_account = record staker {
      reward_debt = accumulated;
      pending_rewards = 0;
      last_claim_timestamp = now;
    };
    bank = bank';
  })

-- What is owed at the current multiplier, after settlement.
unfoldable pub claim_owed :
    Runtime → Pubkey → ℤ → ℕ → StakingPool → StakerAccount → Bank → Result StakerContext
claim_owed rt user now new_mult pool staker bank = do
  (acc, total) ← owed_total new_mult pool staker
  if total == 0
      then ok (record { staking_pool = pool; staker_account = staker; bank = bank })
      else pay_claim rt user now acc total pool staker bank

-- `handle_claim`; `user` signs, `now` is the clock.
unfoldable pub handle_claim : Runtime → Pubkey → ℤ → StakerContext → Result StakerContext
handle_claim rt user now c = do
  require (not c.staking_pool.is_paused) pool_paused
  let new_mult = get_multiplier c.staker_account.stake_timestamp now
  (pool, staker) ← settle new_mult c.staking_pool c.staker_account
  if new_mult == 0
      then ok (record { staking_pool = pool; staker_account = staker; bank = c.bank })
      else claim_owed rt user now new_mult pool staker c.bank
