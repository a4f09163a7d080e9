-- ===== src/Staking/Rescue.antt =====
-- programs/brain-staking/src/instructions/emergency_rescue.rs
pub mod Refusal
use dlmm_auto_sell_assets_in.Base.{
  ℕ, ◌-◌, Bool, false, Option, some, none, ◌==◌, ltb, if◌then◌else◌, min,
}
use dlmm_auto_sell_assets_in.Errors.{Result, ok, privilege_escalation, constraint, ◌>>=◌, ◌>>◌}
use dlmm_auto_sell_assets_in.State.{Pubkey, StakingPool, StakerAccount}
use dlmm_auto_sell_assets_in.Runtime.{Bank, Runtime, sub_lamports, add_lamports}
use dlmm_auto_sell_assets_in.Rewards.{StakerContext, weighted, accumulated, owed_since}

-- The rewards at the multiplier on record.
unfoldable pub rescue_pending : StakingPool → StakerAccount → Result ℕ
rescue_pending pool staker =
    if ltb 0 staker.current_multiplier
    then (do
      weight ← weighted staker.staked_amount staker.current_multiplier
      acc ← accumulated weight pool.reward_per_share
      owed_since acc staker.reward_debt)
    else ok 0

-- What can be paid without going below the rent-exempt minimum; `-` on ℕ is `saturating_sub`.
unfoldable pub rescue_rewards : Runtime → Pubkey → ℕ → StakingPool → Bank → Result Bank
rescue_rewards rt user pending pool bank =
    let claim_amount = min pending (bank.lamports pool.reward_vault - rt.minimum_balance 0) in
    if ltb 0 pending
    then (if ltb 0 claim_amount
        then (do
          debited ← sub_lamports rt pool.reward_vault claim_amount bank
          add_lamports user claim_amount debited)
        else ok bank)
    else ok bank

-- Whether the seeds sign for the account.
abbrev pub signs_for : Pubkey → Option Pubkey → Bool
signs_for account none = false
signs_for account (some signer) = signer == account

-- `handle_emergency_rescue`: the accounts in memory at its end. The authority of the transfer is the
-- BRAIN vault itself, which the seeds have to sign for, or else the runtime refuses the call.
unfoldable pub handle_emergency_rescue :
    Runtime → Pubkey → Pubkey → StakerContext → Result StakerContext
handle_emergency_rescue rt user user_brain_ata c = do
  let pool = c.staking_pool
  let staker = c.staker_account
  pending ← rescue_pending pool staker
  constraint (signs_for pool.brain_vault (rt.vault_seeds_address pool.brain_vault_bump))
      privilege_escalation
  returned ←
      rt.token_transfer pool.brain_vault pool.brain_vault user_brain_ata staker.staked_amount c.bank
  paid ← rescue_rewards rt user pending pool returned
  weight ← weighted staker.staked_amount staker.current_multiplier
  ok (record {
    staking_pool = record pool {
      total_staked = pool.total_staked - staker.staked_amount;
      total_weighted_stake = pool.total_weighted_stake - weight;
    };
    staker_account = staker;
    bank = paid;
  })
