-- ===== src/Staking/Unstake/Effect.antt =====
-- What an unstake (unstake.rs) pays and returns, and where forfeited rewards go.
use dlmm_auto_sell_assets_in.Base.{◌+◌, ◌-◌, ◌*◌, ◌≡◌, ◌≢◌, ◌≤◌, ◌<◌, arith, refl, ap}
use dlmm_auto_sell_assets_in.Base.Int.{ℤ}
use dlmm_auto_sell_assets_in.Errors.{ok}
use dlmm_auto_sell_assets_in.Constants.{precision}
use dlmm_auto_sell_assets_in.State.{Pubkey, StakingPool}
use dlmm_auto_sell_assets_in.Runtime.{Bank, Runtime, TokenAccount}
use dlmm_auto_sell_assets_in.Runtime.Laws.{IsRuntime}
use dlmm_auto_sell_assets_in.Multiplier.{get_multiplier}
use dlmm_auto_sell_assets_in.Rewards.{StakerContext}
use dlmm_auto_sell_assets_in.Rewards.Shares.{weight_of}
use dlmm_auto_sell_assets_in.Staking.Unstake.{handle_unstake}
use dlmm_auto_sell_assets_in.Staking.Unstake.Outcome.{earned, handle_unstake-Unstaked}
use dlmm_auto_sell_assets_in.Staking.Unstake.Payout.{spread}
use dlmm_auto_sell_assets_in.Staking.Claim.Payout.{IsSound, entitlement}

module _ (rt : Runtime) (laws : IsRuntime rt) where
  -- An unstake that succeeds, over transfers that move what they are asked to: the user, who is not the
  -- reward vault, gets exactly the entitlement out of that vault; the whole stake moves from the BRAIN
  -- vault to the user's token account; and the pool's totals lose the stake and its weight.
  pub unstake_pays :
      (user ata : Pubkey) (now : ℤ) (c : StakerContext) (pool' : StakingPool) (bank' : Bank)
      → user ≢ c.staking_pool.reward_vault
      → c.staking_pool.brain_vault ≢ ata
      → IsSound c.staking_pool.reward_per_share c.staker_account
      → handle_unstake rt user ata now c ≡ ok (pool', bank')
      → (bank'.lamports c.staking_pool.reward_vault
            + entitlement now c.staking_pool c.staker_account
          ≡ c.bank.lamports c.staking_pool.reward_vault)
        × (bank'.lamports user
            ≡ c.bank.lamports user + entitlement now c.staking_pool c.staker_account)
        × ((bank'.tokens ata).amount ≡ (c.bank.tokens ata).amount + c.staker_account.staked_amount)
        × ((bank'.tokens c.staking_pool.brain_vault).amount + c.staker_account.staked_amount
            ≡ (c.bank.tokens c.staking_pool.brain_vault).amount)
        × (pool'.total_staked + c.staker_account.staked_amount ≡ c.staking_pool.total_staked)
        × (pool'.total_weighted_stake + weight_of c.staker_account
            ≡ c.staking_pool.total_weighted_stake)
  unstake_pays user ata now c pool' bank' ne apart sound h =
      let (mid, u) = handle_unstake-Unstaked rt user ata now c pool' bank' sound h in
      let moves = laws.token rt.pool_key in
      let bv = c.staking_pool.brain_vault in
      let n = c.staker_account.staked_amount in
      let kept : (k : Pubkey) → bank'.lamports k ≡ mid.lamports k =
        λ k. moves.lamports_kept bv ata k n mid bank' u.returned in
      let same : (k : Pubkey) → (mid.tokens k).amount ≡ (c.bank.tokens k).amount =
        λ k. ap (λ (f : Pubkey → TokenAccount). (f k).amount) u.tokens in
      (
        rw (kept c.staking_pool.reward_vault) (u.vault ne),
        rw (kept user) (u.user_paid ne),
        omega (arith, moves.target bv ata n mid bank' u.returned apart, same ata),
        omega (arith, moves.source bv ata n mid bank' u.returned apart, same bv),
        u.stake_removed,
        u.weight_removed,
      )

  -- An unstake before the cliff that succeeds, by a user other than the reward vault, pays no lamports:
  -- the user and the reward vault keep theirs. All that the leaver had earned goes to the stakers who
  -- remain: the accumulator grows by it, scaled and divided by their weight, and rounded down. When no
  -- weight remains the accumulator stays as it is, so that those rewards are nobody's.
  pub early_unstake_forfeits :
      (user ata : Pubkey) (now : ℤ) (c : StakerContext) (pool' : StakingPool) (bank' : Bank)
      → user ≢ c.staking_pool.reward_vault
      → IsSound c.staking_pool.reward_per_share c.staker_account
      → get_multiplier c.staker_account.stake_timestamp now ≡ 0
      → handle_unstake rt user ata now c ≡ ok (pool', bank')
      → (bank'.lamports user ≡ c.bank.lamports user)
        × (bank'.lamports c.staking_pool.reward_vault ≡ c.bank.lamports c.staking_pool.reward_vault)
        × (pool'.reward_per_share
            ≡ spread c.staking_pool.reward_per_share pool'.total_weighted_stake
                (earned c.staking_pool c.staker_account))
        × ((pool'.reward_per_share - c.staking_pool.reward_per_share) * pool'.total_weighted_stake
            ≤ earned c.staking_pool c.staker_account * precision)
  early_unstake_forfeits user ata now c pool' bank' ne sound early h =
      let (mid, u) = handle_unstake-Unstaked rt user ata now c pool' bank' sound h in
      let none_due : entitlement now c.staking_pool c.staker_account ≡ 0 = rw early refl in
      let whole : earned c.staking_pool c.staker_account - 0
          ≡ earned c.staking_pool c.staker_account =
        omega arith in
      let kept : (k : Pubkey) → bank'.lamports k ≡ mid.lamports k = λ k.
        (laws.token rt.pool_key).lamports_kept c.staking_pool.brain_vault ata k
          c.staker_account.staked_amount mid bank' u.returned in
      (
        omega (arith, kept user, u.user_paid ne, none_due),
        omega (arith, kept c.staking_pool.reward_vault, u.vault ne, none_due),
        u.forfeited early,
        rw whole at (rw none_due at u.growth),
      )

-- The payment can stand in the way of the stake: an unstake with something due, which the vault cannot pay
-- and keep its rent-exempt minimum, always fails, whatever the vault of stakes holds.
pub unstake_blocked :
    (rt : Runtime) (user ata : Pubkey) (now : ℤ) (c : StakerContext) (result : StakingPool × Bank)
    → IsSound c.staking_pool.reward_per_share c.staker_account
    → 0 < entitlement now c.staking_pool c.staker_account
    → c.bank.lamports c.staking_pool.reward_vault
      < rt.minimum_balance 0 + entitlement now c.staking_pool c.staker_account
    → handle_unstake rt user ata now c ≢ ok result
unstake_blocked rt user ata now c result sound some_due short h =
    let (mid, u) = handle_unstake-Unstaked rt user ata now c result.0 result.1 sound h in
    omega (arith, u.rent_kept some_due)
