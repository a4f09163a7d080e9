-- ===== src/Staking/Claim/Effect.antt =====
-- What a claim (claim.rs) pays, and that it pays once.
use dlmm_auto_sell_assets_in.Base.{◌+◌, ◌-◌, ◌≡◌, ◌≢◌, inl, inr, arith, refl, ◌==◌, Bool-cases}
use dlmm_auto_sell_assets_in.Base.Int.{ℤ}
use dlmm_auto_sell_assets_in.Errors.{ok}
use dlmm_auto_sell_assets_in.State.{Pubkey}
use dlmm_auto_sell_assets_in.Runtime.{Runtime}
use dlmm_auto_sell_assets_in.Multiplier.{get_multiplier}
use dlmm_auto_sell_assets_in.Rewards.{StakerContext}
use dlmm_auto_sell_assets_in.Rewards.Shares.{share, weight_of}
use dlmm_auto_sell_assets_in.Staking.Claim.{handle_claim}
use dlmm_auto_sell_assets_in.Staking.Claim.Payout.{IsSound, entitlement, handle_claim-Claimed}

-- A claim that succeeds, by a user other than the reward vault, on an account whose debt is at most its
-- share: exactly the entitlement leaves the vault and reaches the user, no token moves, the stake stays,
-- the multiplier is the current one, the pool's weight changes by the account's, and the entitlement
-- left at that time is zero, so that a second claim at once pays nothing.
pub claim_pays :
    (rt : Runtime) (user : Pubkey) (now : ℤ) (c c' : StakerContext)
    → user ≢ c.staking_pool.reward_vault
    → IsSound c.staking_pool.reward_per_share c.staker_account
    → handle_claim rt user now c ≡ ok c'
    → (c'.bank.lamports c.staking_pool.reward_vault
          + entitlement now c.staking_pool c.staker_account
        ≡ c.bank.lamports c.staking_pool.reward_vault)
      × (c'.bank.lamports user
          ≡ c.bank.lamports user + entitlement now c.staking_pool c.staker_account)
      × (c'.bank.tokens ≡ c.bank.tokens)
      × (c'.staker_account.staked_amount ≡ c.staker_account.staked_amount)
      × (c'.staker_account.current_multiplier ≡ get_multiplier c.staker_account.stake_timestamp now)
      × (c'.staking_pool.total_weighted_stake + weight_of c.staker_account
          ≡ c.staking_pool.total_weighted_stake + weight_of c'.staker_account)
      × IsSound c'.staking_pool.reward_per_share c'.staker_account
      × (entitlement now c'.staking_pool c'.staker_account ≡ 0)
claim_pays rt user now c c' ne sound h =
    let r = handle_claim-Claimed rt user now c c' sound h in
    let n = get_multiplier c.staker_account.stake_timestamp now in
    let rps : c'.staking_pool.reward_per_share ≡ c.staking_pool.reward_per_share =
      ground (arith, r.pool_frame) in
    let since : c'.staker_account.stake_timestamp ≡ c.staker_account.stake_timestamp =
      ground (arith, r.staker_frame) in
    (
      r.vault ne,
      r.user_paid ne,
      r.tokens,
      ground (arith, r.staker_frame),
      ground (arith, r.staker_frame),
      r.weight,
      rw rps r.sound,
      rw (since, rps)
          (elim (Bool-cases (n == 0)) [
            | inl early ↦ rw early refl
            | inr late ↦
                let e : entitlement now c.staking_pool c.staker_account
                    ≡ c.staker_account.pending_rewards
                      + share (weight_of c.staker_account) c.staking_pool.reward_per_share
                      - c.staker_account.reward_debt =
                  rw late refl in
                rw late (omega (arith, r.value))
          ]),
    )
