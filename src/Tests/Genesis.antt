-- ===== src/Tests/Genesis.antt =====
-- A new pool and its first stake.
use dlmm_auto_sell_assets_in.Base.{◌+◌, ◌≡◌, ◌≤◌, arith, refl, [], ◌∷◌}
use dlmm_auto_sell_assets_in.Base.Int.{pos}
use dlmm_auto_sell_assets_in.Base.Assoc.{sum_by}
use dlmm_auto_sell_assets_in.Errors.{ok}
use dlmm_auto_sell_assets_in.Checked.{checked_add, try_from}
use dlmm_auto_sell_assets_in.State.{StakingPool}
use dlmm_auto_sell_assets_in.Admin.Changes.{IsConfigured}
use dlmm_auto_sell_assets_in.Staking.Initialize.{InitializeAccounts, handle_initialize}
use dlmm_auto_sell_assets_in.Staking.Stake.{new_staker, handle_stake}
use dlmm_auto_sell_assets_in.Staking.Unstake.Outcome.{earned}
use dlmm_auto_sell_assets_in.Ledger.{Ledger, stake}
use dlmm_auto_sell_assets_in.Ledger.Consistency.{staked_of}
use dlmm_auto_sell_assets_in.Ledger.Solvency.{vault_of}
use dlmm_auto_sell_assets_in.Ledger.Steps.{Reach, CanSign, here, next, staked}
use dlmm_auto_sell_assets_in.Ledger.Conservation.{all_changes}
use dlmm_auto_sell_assets_in.Ledger.Genesis.{genesis, pool_covered}
use dlmm_auto_sell_assets_in.Tests.{toy, toy_token, toy-IsRuntime, pool, bank, move_tokens}

abbrev pub accounts : InitializeAccounts
accounts = record {
  owner = 1;
  brain_mint = 3;
  brain_vault = 4;
  reward_vault = 5;
  treasury = 6;
  pool_bump = 255;
  brain_vault_bump = 254;
  reward_vault_bump = 253;
}

abbrev pub new_pool : StakingPool
new_pool = record pool { total_staked = 0 }

pub initialize_runs : handle_initialize accounts 2 200 100 ≡ ok new_pool
unfolding handle_initialize
initialize_runs = refl

abbrev pub first : Ledger
first = record {
  staking_pool = record new_pool { total_staked = 200 };
  stakers = (10, new_staker 10 200 (pos 50) 252) ∷ [];
  bank = record bank { tokens = move_tokens 20 4 200 bank.tokens };
}

pub stake_runs : stake toy 10 20 4 (pos 50) 252 200 (genesis new_pool bank) ≡ ok first
unfolding stake handle_stake toy_token checked_add try_from
stake_runs = refl

pub signs : CanSign toy 10 (genesis new_pool bank)
signs = (λ e. omega (arith, e), λ e. omega (arith, e))

pub first_stake : Reach toy (genesis new_pool bank) first
first_stake = next here (staked 10 20 4 (pos 50) 252 200 signs stake_runs)

pool_covered_example :
    IsConfigured first.staking_pool
    × (sum_by (earned first.staking_pool) first.stakers ≤ vault_of first + all_changes first_stake)
    × (first.staking_pool.total_staked ≤ (first.bank.tokens first.staking_pool.brain_vault).amount)
    × (first.staking_pool.total_staked ≡ sum_by staked_of first.stakers)
pool_covered_example =
    pool_covered toy toy-IsRuntime accounts 2 200 100 new_pool bank initialize_runs refl first_stake
