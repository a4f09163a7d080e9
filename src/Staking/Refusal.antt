-- ===== src/Staking/Refusal.antt =====
-- What the runtime's rule for debits does to claim.rs and unstake.rs.
use dlmm_auto_sell_assets_in.Base.{◌≡◌, ◌≢◌, ◌<◌, arith, false}
use dlmm_auto_sell_assets_in.Base.Int.{ℤ}
use dlmm_auto_sell_assets_in.Errors.{ok}
use dlmm_auto_sell_assets_in.State.{Pubkey, StakingPool}
use dlmm_auto_sell_assets_in.Runtime.{Bank, Runtime}
use dlmm_auto_sell_assets_in.Rewards.{StakerContext}
use dlmm_auto_sell_assets_in.Staking.Claim.{handle_claim}
use dlmm_auto_sell_assets_in.Staking.Claim.Payout.{IsSound, entitlement, handle_claim-Claimed}
use dlmm_auto_sell_assets_in.Staking.Unstake.{handle_unstake}
use dlmm_auto_sell_assets_in.Staking.Unstake.Outcome.{handle_unstake-Unstaked}

-- Where the runtime does not let the program debit the reward vault, as for an account of the system
-- program, a staker whose debt is sound and to whom something is due can neither claim nor unstake,
-- whatever the vaults hold.
pub dues_never_paid :
    (rt : Runtime) (user ata : Pubkey) (now : ℤ) (c : StakerContext)
    → rt.may_debit c.staking_pool.reward_vault ≡ false
    → IsSound c.staking_pool.reward_per_share c.staker_account
    → 0 < entitlement now c.staking_pool c.staker_account
    → ((c' : StakerContext) → handle_claim rt user now c ≢ ok c')
      × ((pool' : StakingPool) (bank' : Bank)
          → handle_unstake rt user ata now c ≢ ok (pool', bank'))
dues_never_paid rt user ata now c refused sound some_due = (
  λ c' h.
      let claimed = handle_claim-Claimed rt user now c c' sound h in
      ground (arith, refused, claimed.debited some_due),
  λ pool' bank' h.
      let (mid, u) = handle_unstake-Unstaked rt user ata now c pool' bank' sound h in
      ground (arith, refused, u.debited some_due),
)
