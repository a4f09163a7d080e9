-- ===== src/Rewards/Payments.antt =====
-- A payment out of the reward vault (claim.rs lines 135-159, unstake.rs lines 160-188).
use dlmm_auto_sell_assets_in.Base.{ℕ, ◌+◌, ◌≡◌, ◌≢◌, ◌≤◌, ◌<◌, arith, true, ltb, if◌then◌else◌}
use dlmm_auto_sell_assets_in.Errors.{ok}
use dlmm_auto_sell_assets_in.Constants.{emergency_vault_threshold}
use dlmm_auto_sell_assets_in.State.{Pubkey, StakingPool}
use dlmm_auto_sell_assets_in.Runtime.{Bank, Runtime, sub_lamports, add_lamports}
use dlmm_auto_sell_assets_in.Checked.{checked_sub, checked_add}
use dlmm_auto_sell_assets_in.Rewards.{pause_if_low, pay_rewards}

pub record Paid (rt : Runtime) (user : Pubkey) (total : ℕ) (pool pool' : StakingPool)
    (bank bank' : Bank) : Type 0 where
  pub pool_frame : pool' ≡ record pool { is_paused = pool'.is_paused }
  pub paused : pool'.is_paused ≡ (
      if ltb (bank'.lamports pool.reward_vault) emergency_vault_threshold
      then true
      else pool.is_paused)
  pub debited : 0 < total → rt.may_debit pool.reward_vault ≡ true
  pub rent_kept : rt.minimum_balance 0 + total ≤ bank.lamports pool.reward_vault
  pub vault_bound : bank.lamports pool.reward_vault ≤ bank'.lamports pool.reward_vault + total
  pub vault :
      user ≢ pool.reward_vault
      → bank'.lamports pool.reward_vault + total ≡ bank.lamports pool.reward_vault
  pub user_paid : user ≢ pool.reward_vault → bank'.lamports user ≡ bank.lamports user + total
  pub others : (k : Pubkey) → k ≢ pool.reward_vault → k ≢ user → bank'.lamports k ≡ bank.lamports k
  pub tokens : bank'.tokens ≡ bank.tokens

pub pay_rewards-Paid :
    (rt : Runtime) (user : Pubkey) (total : ℕ) (pool pool' : StakingPool) (bank bank' : Bank)
    → pay_rewards rt user total pool bank ≡ ok (pool', bank')
    → Paid rt user total pool pool' bank bank'
unfolding pay_rewards sub_lamports add_lamports checked_sub checked_add pause_if_low
pay_rewards-Paid rt user total pool pool' bank bank' h = record {
  pool_frame = ground arith;
  paused = ground arith;
  debited = λ positive. ground arith;
  rent_kept = ground arith;
  vault_bound = ground arith;
  vault = λ ne. ground arith;
  user_paid = λ ne. ground arith;
  others = λ k n m. ground arith;
  tokens = ground arith;
}

-- A payment out of the reward vault to another account never takes the vault below its rent-exempt
-- minimum; it moves exactly the amount, changes no token account, and pauses the
-- pool when it leaves the vault below the emergency threshold, which is all it changes of the pool.
pub payment_guarded :
    (rt : Runtime) (user : Pubkey) (total : ℕ) (pool pool' : StakingPool) (bank bank' : Bank)
    → user ≢ pool.reward_vault
    → pay_rewards rt user total pool bank ≡ ok (pool', bank')
    → (rt.minimum_balance 0 ≤ bank'.lamports pool.reward_vault)
      × (bank'.lamports pool.reward_vault + total ≡ bank.lamports pool.reward_vault)
      × (bank'.lamports user ≡ bank.lamports user + total)
      × (bank'.tokens ≡ bank.tokens)
      × (pool' ≡ record pool {
        is_paused =
            if ltb (bank'.lamports pool.reward_vault) emergency_vault_threshold
            then true
            else pool.is_paused;
      })
payment_guarded rt user total pool pool' bank bank' ne h =
    let p = pay_rewards-Paid rt user total pool pool' bank bank' h in
    let left = p.vault ne in
    (
      omega (arith, p.rent_kept, left),
      left,
      p.user_paid ne,
      p.tokens,
      ground (arith, p.pool_frame, p.paused),
    )
