-- ===== src/Tests/Success.antt =====
-- A claim and an unstake that the bounds allow, payments that the runtime or the vault blocks, and a rescue
-- that fails.
use dlmm_auto_sell_assets_in.Base.{◌≡◌, ◌≢◌, arith, refl, ap, inl, inr, false}
use dlmm_auto_sell_assets_in.Base.Int.{pos, saturating_sub}
use dlmm_auto_sell_assets_in.Errors.{ok}
use dlmm_auto_sell_assets_in.State.{Pubkey, StakingPool}
use dlmm_auto_sell_assets_in.Runtime.{TokenAccount, Bank, Runtime, update}
use dlmm_auto_sell_assets_in.Multiplier.{get_multiplier}
use dlmm_auto_sell_assets_in.Rewards.{StakerContext}
use dlmm_auto_sell_assets_in.Rewards.Success.{Fits}
use dlmm_auto_sell_assets_in.Staking.Claim.{handle_claim}
use dlmm_auto_sell_assets_in.Staking.Claim.Payout.{entitlement}
use dlmm_auto_sell_assets_in.Staking.Claim.Success.{claim_allowed}
use dlmm_auto_sell_assets_in.Staking.Unstake.{handle_unstake}
use dlmm_auto_sell_assets_in.Staking.Unstake.Effect.{unstake_blocked}
use dlmm_auto_sell_assets_in.Staking.Refusal.{dues_never_paid}
use dlmm_auto_sell_assets_in.Staking.Unstake.Success.{unstake_allowed}
use dlmm_auto_sell_assets_in.Ledger.{emergency_rescue}
use dlmm_auto_sell_assets_in.Ledger.Rescue.{rescue_never}
use dlmm_auto_sell_assets_in.Tests.{toy, toy_token, toy-IsRuntime, move_tokens, pool, staker, bank}
use dlmm_auto_sell_assets_in.Tests.Staking.{claiming, left}
use dlmm_auto_sell_assets_in.Tests.Leaving.{toy_token_checked}
use dlmm_auto_sell_assets_in.Tests.Genesis.{accounts, new_pool, initialize_runs, first, first_stake}

claiming-Fits : Fits claiming.staking_pool claiming.staker_account
claiming-Fits = record {
  multiplier = omega arith;
  product = omega arith;
  room = omega arith;
  words = omega arith;
  counted = omega arith;
  sound = omega arith;
}

owed : entitlement (pos 700000) claiming.staking_pool claiming.staker_account ≡ 1960000000
unfolding get_multiplier saturating_sub
owed = refl

-- A vault that the system program owns.
abbrev refusing : Runtime
refusing = record toy { may_debit = λ key. false }

-- A first claim after the cliff, before any deposit, which raises the weight of the stake.
abbrev undue : StakerContext
undue = record { staking_pool = pool; staker_account = staker; bank = bank }

undue-Fits : Fits undue.staking_pool undue.staker_account
undue-Fits = record {
  multiplier = omega arith;
  product = omega arith;
  room = omega arith;
  words = omega arith;
  counted = omega arith;
  sound = omega arith;
}

nothing_owed : entitlement (pos 700000) undue.staking_pool undue.staker_account ≡ 0
unfolding get_multiplier saturating_sub
nothing_owed = refl

claim_allowed_example : (c' : StakerContext) × (handle_claim refusing 10 (pos 700000) undue ≡ ok c')
claim_allowed_example =
    claim_allowed refusing 10 (pos 700000) undue refl (λ e. omega (arith, e)) undue-Fits
      (inl nothing_owed) (rw nothing_owed (omega arith)) (rw nothing_owed (omega arith))

-- The vault returns the stake, whatever the lamports are.
stake_returned :
    (b : Bank) → b.tokens ≡ claiming.bank.tokens → (b' : Bank) × (toy_token 9 4 20 1000 b ≡ ok b')
unfolding toy_token
stake_returned b same =
    let owner : (b.tokens 4).owner ≡ 9 = ap (λ (f : Pubkey → TokenAccount). (f 4).owner) same in
    let amount : (b.tokens 4).amount ≡ 1000 =
      ap (λ (f : Pubkey → TokenAccount). (f 4).amount) same in
    (record b { tokens = move_tokens 4 20 1000 b.tokens }, ground arith)

unstake_allowed_example :
    (pool' : StakingPool) × (bank' : Bank) × (handle_unstake toy 10 20 (pos 700000) claiming
      ≡ ok (pool', bank'))
unstake_allowed_example =
    unstake_allowed toy 10 20 (pos 700000) claiming stake_returned (λ e. omega (arith, e))
      claiming-Fits (omega arith) (omega arith) (inr refl) (rw owed (omega arith))
      (rw owed (omega arith))

-- One SOL in the vault, and almost two due.
abbrev short : StakerContext
short = record claiming { bank = record bank { lamports = update bank.lamports 5 1000000000 } }

unstake_blocked_example :
    handle_unstake toy 10 20 (pos 700000) short ≢ ok (left.staking_pool, left.bank)
unstake_blocked_example =
    unstake_blocked toy 10 20 (pos 700000) short (left.staking_pool, left.bank) (omega arith)
      (rw owed (omega arith)) (rw owed (omega arith))

dues_never_paid_example :
    ((c' : StakerContext) → handle_claim refusing 10 (pos 700000) claiming ≢ ok c')
    × ((pool' : StakingPool) (bank' : Bank)
        → handle_unstake refusing 10 20 (pos 700000) claiming ≢ ok (pool', bank'))
dues_never_paid_example =
    dues_never_paid refusing 10 20 (pos 700000) claiming refl (omega arith) (rw owed (omega arith))

rescue_never_example : emergency_rescue toy 10 20 4 5 first ≢ ok first
rescue_never_example =
    rescue_never toy toy-IsRuntime toy_token_checked accounts 2 200 100 new_pool bank 10 20 4 5
      first initialize_runs refl first_stake (λ e. omega (arith, e))
