-- ===== src/Tests/Staking.antt =====
-- A run of the staking instructions: a claim past the cliff, a deposit of two SOL, a second claim and an
-- unstake, and the theorems on it.
use dlmm_auto_sell_assets_in.Base.{◌+◌, ◌-◌, ◌*◌, ◌≡◌, ◌≤◌, ◌<◌, arith, refl, [], ◌∷◌, false}
use dlmm_auto_sell_assets_in.Base.Int.{pos, saturating_sub}
use dlmm_auto_sell_assets_in.Base.Assoc.{sum_by}
use dlmm_auto_sell_assets_in.Errors.{ok}
use dlmm_auto_sell_assets_in.Checked.{checked_sub, checked_add, checked_mul, checked_div, try_from}
use dlmm_auto_sell_assets_in.State.{StakerAccount}
use dlmm_auto_sell_assets_in.Runtime.{update, sub_lamports, add_lamports}
use dlmm_auto_sell_assets_in.Multiplier.{get_multiplier}
use dlmm_auto_sell_assets_in.Constants.{min_reward_deposit, precision}
use dlmm_auto_sell_assets_in.Rewards.{
  StakerContext, weighted, accumulated, owed_since, settle_pending, change_tier, settle, owed_total,
  pause_if_low, pay_rewards,
}
use dlmm_auto_sell_assets_in.Rewards.Shares.{weight_of}
use dlmm_auto_sell_assets_in.Staking.Claim.{pay_claim, claim_owed, handle_claim}
use dlmm_auto_sell_assets_in.Staking.Claim.Payout.{IsSound, entitlement}
use dlmm_auto_sell_assets_in.Staking.Claim.Effect.{claim_pays}
use dlmm_auto_sell_assets_in.Staking.Unstake.{accrue, pay_or_forfeit, remove_stake, handle_unstake}
use dlmm_auto_sell_assets_in.Staking.Unstake.Outcome.{earned}
use dlmm_auto_sell_assets_in.Staking.Unstake.Effect.{unstake_pays}
use dlmm_auto_sell_assets_in.Staking.Deposit.{
  protocol_fee, grow_accumulator, transfer_deposit, handle_deposit_rewards,
}
use dlmm_auto_sell_assets_in.Staking.Deposit.Accounting.{fee_of, net_of}
use dlmm_auto_sell_assets_in.Staking.Deposit.Split.{deposit_split}
use dlmm_auto_sell_assets_in.Ledger.{Ledger, claim, deposit_rewards, unstake, context_of}
use dlmm_auto_sell_assets_in.Ledger.Consistency.{IsConsistent, staked_of}
use dlmm_auto_sell_assets_in.Ledger.Steps.{
  Reach, CanSign, here, next, claimed, deposited, unstaked, Reach-IsConsistent,
}
use dlmm_auto_sell_assets_in.Ledger.Solvency.{vault_of}
use dlmm_auto_sell_assets_in.Ledger.Conservation.{all_changes, rewards_covered}
use dlmm_auto_sell_assets_in.Ledger.Custody.{IsCustody, stakes_covered}
use dlmm_auto_sell_assets_in.Tests.{
  toy, toy_system, toy_token, move_tokens, toy-IsRuntime, pool, staker, bank, start,
}

-- After seven days the claim only sets the tier.
abbrev tiered : Ledger
tiered = record {
  staking_pool = record pool { total_weighted_stake = 1000 };
  stakers = (10, record staker { current_multiplier = 1 }) ∷ [];
  bank = bank;
}

-- Two per cent of the deposit go to the treasury.
abbrev pub rewarded : Ledger
rewarded = record {
  staking_pool = record pool {
    total_weighted_stake = 1000;
    reward_per_share = 1960000000000000000;
    total_rewards_distributed = 1960000000;
  };
  stakers = (10, record staker { current_multiplier = 1 }) ∷ [];
  bank = record bank {
    lamports =
        update (update (update (update bank.lamports 1 19960000000) 6 20040000000) 1 18000000000) 5
          21960000000;
  };
}

abbrev paid_staker : StakerAccount
paid_staker = record staker {
  current_multiplier = 1;
  reward_debt = 1960000000;
  last_claim_timestamp = pos 700000;
}

abbrev paid : Ledger
paid = record {
  staking_pool = rewarded.staking_pool;
  stakers = (10, paid_staker) ∷ [];
  bank = record (rewarded.bank) {
    lamports = update (update rewarded.bank.lamports 5 20000000000) 10 21960000000;
  };
}

abbrev pub left : Ledger
left = record {
  staking_pool = record (paid.staking_pool) { total_staked = 0; total_weighted_stake = 0 };
  stakers = [];
  bank = record (paid.bank) { tokens = move_tokens 4 20 1000 paid.bank.tokens };
}

claim_tiers : claim toy 10 5 (pos 604800) start ≡ ok tiered
unfolding claim handle_claim settle change_tier settle_pending weighted accumulated claim_owed
    owed_total owed_since pay_claim pay_rewards get_multiplier saturating_sub checked_add
claim_tiers = refl

deposit_rewards_runs : deposit_rewards toy 1 5 6 2000000000 tiered ≡ ok rewarded
unfolding deposit_rewards handle_deposit_rewards protocol_fee transfer_deposit grow_accumulator
    toy_system sub_lamports add_lamports checked_sub checked_add checked_mul checked_div try_from
deposit_rewards_runs = refl

claim_runs : claim toy 10 5 (pos 700000) rewarded ≡ ok paid
unfolding claim handle_claim settle claim_owed owed_total owed_since pay_claim pay_rewards
    get_multiplier saturating_sub weighted checked_add accumulated sub_lamports add_lamports
    pause_if_low
claim_runs = refl

unstake_runs : unstake toy 10 4 20 5 (pos 800000) paid ≡ ok left
unfolding unstake handle_unstake settle accrue pay_or_forfeit remove_stake toy_token get_multiplier
    saturating_sub weighted checked_add accumulated owed_total owed_since
unstake_runs = refl

-- The run, step by step.
user_signs : CanSign toy 10 start
user_signs = (λ e. omega (arith, e), λ e. omega (arith, e))

owner_signs : CanSign toy 1 start
owner_signs = (λ e. omega (arith, e), λ e. omega (arith, e))

earning : Reach toy start rewarded
earning =
    next (next here (claimed 10 5 (pos 604800) user_signs claim_tiers))
      (deposited 1 5 6 2000000000 owner_signs deposit_rewards_runs)

history : Reach toy start left
history =
    next (next earning (claimed 10 5 (pos 700000) user_signs claim_runs))
      (unstaked 10 4 20 5 (pos 800000) user_signs unstake_runs)

start-IsConsistent : IsConsistent start
start-IsConsistent = record { staked = refl; weight = refl; sound = (omega arith, tt) }

start-IsCustody : IsCustody toy start
start-IsCustody = record { owned = refl; covered = omega arith }

rewards_covered_example :
    sum_by (earned rewarded.staking_pool) rewarded.stakers ≤ vault_of rewarded + all_changes earning
rewards_covered_example = rewards_covered toy toy-IsRuntime earning start-IsConsistent (omega arith)

stakes_covered_example :
    IsCustody toy left × (left.staking_pool.total_staked ≡ sum_by staked_of left.stakers)
stakes_covered_example = stakes_covered toy toy-IsRuntime history start-IsConsistent start-IsCustody

Reach-IsConsistent_example : IsConsistent left
Reach-IsConsistent_example = Reach-IsConsistent toy history start-IsConsistent

-- The contexts of the second claim and of the unstake.
abbrev pub claiming : StakerContext
claiming = context_of rewarded (record staker { current_multiplier = 1 })

abbrev claimed_context : StakerContext
claimed_context = context_of paid paid_staker

handle_claim_runs : handle_claim toy 10 (pos 700000) claiming ≡ ok claimed_context
unfolding handle_claim settle claim_owed owed_total owed_since pay_claim pay_rewards get_multiplier
    saturating_sub weighted checked_add accumulated sub_lamports add_lamports pause_if_low
handle_claim_runs = refl

claim_pays_example :
    (claimed_context.bank.lamports 5
        + entitlement (pos 700000) claiming.staking_pool claiming.staker_account
      ≡ claiming.bank.lamports 5)
    × (claimed_context.bank.lamports 10
        ≡ claiming.bank.lamports 10
          + entitlement (pos 700000) claiming.staking_pool claiming.staker_account)
    × (claimed_context.bank.tokens ≡ claiming.bank.tokens)
    × (claimed_context.staker_account.staked_amount ≡ claiming.staker_account.staked_amount)
    × (claimed_context.staker_account.current_multiplier ≡ get_multiplier (pos 0) (pos 700000))
    × (claimed_context.staking_pool.total_weighted_stake + weight_of claiming.staker_account
        ≡ claiming.staking_pool.total_weighted_stake + weight_of claimed_context.staker_account)
    × IsSound claimed_context.staking_pool.reward_per_share claimed_context.staker_account
    × (entitlement (pos 700000) claimed_context.staking_pool claimed_context.staker_account ≡ 0)
claim_pays_example =
    claim_pays toy 10 (pos 700000) claiming claimed_context (λ e. omega (arith, e)) (omega arith)
      handle_claim_runs

handle_unstake_runs :
    handle_unstake toy 10 20 (pos 800000) claimed_context ≡ ok (left.staking_pool, left.bank)
unfolding handle_unstake settle accrue pay_or_forfeit remove_stake toy_token get_multiplier
    saturating_sub weighted checked_add accumulated owed_total owed_since
handle_unstake_runs = refl

unstake_pays_example :
    (left.bank.lamports 5
        + entitlement (pos 800000) claimed_context.staking_pool claimed_context.staker_account
      ≡ claimed_context.bank.lamports 5)
    × (left.bank.lamports 10
        ≡ claimed_context.bank.lamports 10
          + entitlement (pos 800000) claimed_context.staking_pool claimed_context.staker_account)
    × ((left.bank.tokens 20).amount ≡ (claimed_context.bank.tokens 20).amount + 1000)
    × ((left.bank.tokens 4).amount + 1000 ≡ (claimed_context.bank.tokens 4).amount)
    × (left.staking_pool.total_staked + 1000 ≡ claimed_context.staking_pool.total_staked)
    × (left.staking_pool.total_weighted_stake + weight_of claimed_context.staker_account
        ≡ claimed_context.staking_pool.total_weighted_stake)
unstake_pays_example =
    unstake_pays toy toy-IsRuntime 10 20 (pos 800000) claimed_context left.staking_pool left.bank
      (λ e. omega (arith, e)) (λ e. omega (arith, e)) (omega arith) handle_unstake_runs

handle_deposit_runs :
    handle_deposit_rewards toy 1 2000000000 tiered.staking_pool bank
    ≡ ok (rewarded.staking_pool, rewarded.bank)
unfolding handle_deposit_rewards protocol_fee transfer_deposit grow_accumulator toy_system
    sub_lamports add_lamports checked_sub checked_add checked_mul checked_div try_from
handle_deposit_runs = refl

deposit_split_example :
    (min_reward_deposit ≤ 2000000000)
    × (tiered.staking_pool.is_paused ≡ false)
    × (0 < tiered.staking_pool.total_weighted_stake)
    × (fee_of 2000000000 tiered.staking_pool * 20 ≤ 2000000000)
    × (rewarded.bank.lamports 6 ≡ bank.lamports 6 + fee_of 2000000000 tiered.staking_pool)
    × (rewarded.bank.lamports 5 ≡ bank.lamports 5 + net_of 2000000000 tiered.staking_pool)
    × (rewarded.bank.lamports 1 + 2000000000 ≡ bank.lamports 1)
    × (rewarded.staking_pool.total_rewards_distributed ≡ 0 + net_of 2000000000 tiered.staking_pool)
    × ((rewarded.staking_pool.reward_per_share - 0) * 1000
        ≤ net_of 2000000000 tiered.staking_pool * precision)
    × (net_of 2000000000 tiered.staking_pool * precision
        < (rewarded.staking_pool.reward_per_share - 0 + 1) * 1000)
deposit_split_example =
    deposit_split toy toy-IsRuntime 1 2000000000 tiered.staking_pool rewarded.staking_pool bank
      rewarded.bank (λ e. omega (arith, e)) (λ e. omega (arith, e)) (λ e. omega (arith, e))
      (omega arith) handle_deposit_runs
