-- ===== src/Tests/Dormancy.antt =====
-- A first stake, a change of the crank, and an unstake a hundred days later.
use dlmm_auto_sell_assets_in.Base.{◌≡◌, ◌+◌, arith, refl, none, []}
use dlmm_auto_sell_assets_in.Base.Int.{pos, saturating_sub}
use dlmm_auto_sell_assets_in.Base.Assoc.{erase}
use dlmm_auto_sell_assets_in.Errors.{ok}
use dlmm_auto_sell_assets_in.Checked.{checked_add}
use dlmm_auto_sell_assets_in.Multiplier.{get_multiplier}
use dlmm_auto_sell_assets_in.Rewards.{
  weighted, accumulated, owed_since, settle_pending, change_tier, settle, owed_total,
}
use dlmm_auto_sell_assets_in.Admin.{update_crank}
use dlmm_auto_sell_assets_in.Admin.Changes.{crank_updated}
use dlmm_auto_sell_assets_in.Staking.Unstake.{accrue, pay_or_forfeit, remove_stake, handle_unstake}
use dlmm_auto_sell_assets_in.Ledger.{Ledger, unstake}
use dlmm_auto_sell_assets_in.Ledger.Consistency.{IsConsistent}
use dlmm_auto_sell_assets_in.Ledger.Steps.{Reach, CanSign, here, next, administered}
use dlmm_auto_sell_assets_in.Ledger.Custody.{IsCustody}
use dlmm_auto_sell_assets_in.Ledger.Genesis.{genesis}
use dlmm_auto_sell_assets_in.Ledger.Dormancy.{untouched_stake_returns}
use dlmm_auto_sell_assets_in.Tests.{toy, toy_token, toy-IsRuntime, bank, move_tokens}
use dlmm_auto_sell_assets_in.Tests.Genesis.{new_pool, first, stake_runs, signs}

abbrev administered_ledger : Ledger
administered_ledger = record first { staking_pool = record (first.staking_pool) { crank = 77 } }

update_crank_runs : update_crank 1 77 first.staking_pool ≡ ok administered_ledger.staking_pool
unfolding update_crank
update_crank_runs = refl

waiting : Reach toy first administered_ledger
waiting = next here (administered (λ text. none) 1 (crank_updated 77 update_crank_runs))

abbrev emptied : Ledger
emptied = record {
  staking_pool = record new_pool { crank = 77 };
  stakers = [];
  bank = record bank { tokens = move_tokens 4 20 200 administered_ledger.bank.tokens };
}

unstake_runs : unstake toy 10 4 20 5 (pos 8640050) administered_ledger ≡ ok emptied
unfolding unstake handle_unstake settle change_tier settle_pending accrue pay_or_forfeit
    remove_stake toy_token get_multiplier saturating_sub weighted checked_add accumulated owed_total
    owed_since
unstake_runs = refl

new_pool-IsConsistent : IsConsistent (genesis new_pool bank)
new_pool-IsConsistent = record { staked = refl; weight = refl; sound = tt }

new_pool-IsCustody : IsCustody toy (genesis new_pool bank)
new_pool-IsCustody = record { owned = refl; covered = omega arith }

signs_later : CanSign toy 10 administered_ledger
signs_later = (λ e. omega (arith, e), λ e. omega (arith, e))

untouched_stake_returns_example :
    ((emptied.bank.tokens 20).amount ≡ (administered_ledger.bank.tokens 20).amount + 200)
    × (emptied.bank.lamports 10 ≡ administered_ledger.bank.lamports 10)
    × (emptied.bank.lamports 5 ≡ administered_ledger.bank.lamports 5)
    × (emptied.staking_pool.total_staked + 200 ≡ administered_ledger.staking_pool.total_staked)
    × (emptied.staking_pool.total_weighted_stake
        ≡ administered_ledger.staking_pool.total_weighted_stake)
    × (emptied.stakers ≡ erase 10 administered_ledger.stakers)
untouched_stake_returns_example =
    untouched_stake_returns toy toy-IsRuntime 10 20 4 (pos 50) 252 200 (genesis new_pool bank) first
      administered_ledger emptied 20 4 5 (pos 8640050) new_pool-IsConsistent new_pool-IsCustody
      signs stake_runs waiting signs_later refl unstake_runs
