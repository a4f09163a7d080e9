-- ===== src/Tests/Leaving.antt =====
-- Tiers, an unstake before the cliff and a payment.
use dlmm_auto_sell_assets_in.Base.{
  ℕ, ◌+◌, ◌-◌, ◌*◌, ◌≡◌, ◌≤◌, ◌↔◌, arith, refl, ltb, true, if◌then◌else◌,
}
use dlmm_auto_sell_assets_in.Base.Int.{pos, ◌≤ℤ◌, ◌+ℤ◌, saturating_sub}
use dlmm_auto_sell_assets_in.Errors.{ok}
use dlmm_auto_sell_assets_in.Checked.{checked_sub, checked_add, checked_mul, checked_div, try_from}
use dlmm_auto_sell_assets_in.State.{Pubkey, StakingPool}
use dlmm_auto_sell_assets_in.Runtime.{Bank, update, sub_lamports, add_lamports}
use dlmm_auto_sell_assets_in.Multiplier.{get_multiplier}
use dlmm_auto_sell_assets_in.Multiplier.Tiers.{get_multiplier_tiers}
use dlmm_auto_sell_assets_in.Constants.{
  tier_1_threshold, tier_2_threshold, tier_3_threshold, precision, emergency_vault_threshold,
}
use dlmm_auto_sell_assets_in.Rewards.{StakerContext, weighted, settle, pause_if_low, pay_rewards}
use dlmm_auto_sell_assets_in.Rewards.Payments.{payment_guarded}
use dlmm_auto_sell_assets_in.Staking.Unstake.{
  accrue, forfeit, pay_or_forfeit, remove_stake, handle_unstake,
}
use dlmm_auto_sell_assets_in.Staking.Unstake.Payout.{spread}
use dlmm_auto_sell_assets_in.Staking.Unstake.Outcome.{earned}
use dlmm_auto_sell_assets_in.Staking.Unstake.Effect.{early_unstake_forfeits}
use dlmm_auto_sell_assets_in.Tests.{toy, toy_token, move_tokens, toy-IsRuntime, pool, staker, bank}

get_multiplier_tiers_example :
    ((1 ≤ get_multiplier (pos 5) (pos 700000)) ↔ (pos 5 +ℤ pos tier_1_threshold ≤ℤ pos 700000))
    × ((2 ≤ get_multiplier (pos 5) (pos 700000)) ↔ (pos 5 +ℤ pos tier_2_threshold ≤ℤ pos 700000))
    × ((3 ≤ get_multiplier (pos 5) (pos 700000)) ↔ (pos 5 +ℤ pos tier_3_threshold ≤ℤ pos 700000))
    × (get_multiplier (pos 5) (pos 700000) ≤ 3)
get_multiplier_tiers_example = get_multiplier_tiers (pos 5) (pos 700000)

-- Staker 10 leaves before the cliff with pending rewards; another staker has weight 2000.
abbrev early : StakerContext
early = record {
  staking_pool = record pool { total_staked = 3000; total_weighted_stake = 2000 };
  staker_account = record staker { pending_rewards = 5000 };
  bank = bank;
}

abbrev early_pool : StakingPool
early_pool = record pool {
  total_staked = 2000;
  total_weighted_stake = 2000;
  reward_per_share = 2500000000000;
}

abbrev early_bank : Bank
early_bank = record bank { tokens = move_tokens 4 20 1000 bank.tokens }

early_unstake_runs : handle_unstake toy 10 20 (pos 100) early ≡ ok (early_pool, early_bank)
unfolding handle_unstake settle accrue pay_or_forfeit forfeit remove_stake toy_token get_multiplier
    saturating_sub weighted checked_add checked_mul checked_div try_from checked_sub
early_unstake_runs = refl

before_cliff : get_multiplier (pos 0) (pos 100) ≡ 0
unfolding get_multiplier saturating_sub
before_cliff = refl

early_unstake_forfeits_example :
    (early_bank.lamports 10 ≡ 20000000000)
    × (early_bank.lamports 5 ≡ 20000000000)
    × (early_pool.reward_per_share ≡ spread 0 2000 (earned early.staking_pool early.staker_account))
    × ((early_pool.reward_per_share - 0) * early_pool.total_weighted_stake
        ≤ earned early.staking_pool early.staker_account * precision)
early_unstake_forfeits_example =
    early_unstake_forfeits toy toy-IsRuntime 10 20 (pos 100) early early_pool early_bank
      (λ e. omega (arith, e)) (omega arith) before_cliff early_unstake_runs

pub toy_token_checked :
    (authority from to : Pubkey) (n : ℕ) (b b' : Bank)
    → toy_token authority from to n b ≡ ok b'
    → (b.tokens from).owner ≡ authority
unfolding toy_token
toy_token_checked authority from to n b b' h = ground arith

-- A payment that leaves the vault with four SOL.
abbrev paused_pool : StakingPool
paused_pool = record pool { is_paused = true }

abbrev emptied : Bank
emptied = record bank { lamports = update (update bank.lamports 5 4000000000) 10 36000000000 }

payment_runs : pay_rewards toy 10 16000000000 pool bank ≡ ok (paused_pool, emptied)
unfolding pay_rewards sub_lamports add_lamports pause_if_low checked_sub checked_add try_from
payment_runs = refl

payment_guarded_example :
    (890880 ≤ emptied.lamports 5)
    × (emptied.lamports 5 + 16000000000 ≡ bank.lamports 5)
    × (emptied.lamports 10 ≡ bank.lamports 10 + 16000000000)
    × (emptied.tokens ≡ bank.tokens)
    × (paused_pool ≡ record pool {
      is_paused =
          if ltb (emptied.lamports 5) emergency_vault_threshold then true else pool.is_paused;
    })
payment_guarded_example =
    payment_guarded toy 10 16000000000 pool paused_pool bank emptied (λ e. omega (arith, e))
      payment_runs
