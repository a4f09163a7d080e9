-- ===== src/Ledger/Genesis.antt =====
-- The pool as initialize.rs leaves it, with no staker yet: the start that the theorems on runs ask for.
use dlmm_auto_sell_assets_in.Base.{ℕ, ◌+◌, ◌≡◌, ◌≤◌, arith, []}
use dlmm_auto_sell_assets_in.Errors.{ok}
use dlmm_auto_sell_assets_in.State.{Pubkey, StakingPool}
use dlmm_auto_sell_assets_in.Runtime.{Bank, Runtime}
use dlmm_auto_sell_assets_in.Admin.Changes.{IsConfigured}
use dlmm_auto_sell_assets_in.Staking.Initialize.{InitializeAccounts, handle_initialize}
use dlmm_auto_sell_assets_in.Staking.Unstake.Outcome.{earned}
use dlmm_auto_sell_assets_in.Runtime.Laws.{IsRuntime}
use dlmm_auto_sell_assets_in.Base.Assoc.{sum_by}
use dlmm_auto_sell_assets_in.Ledger.{Ledger}
use dlmm_auto_sell_assets_in.Ledger.Consistency.{IsConsistent, staked_of}
use dlmm_auto_sell_assets_in.Ledger.Solvency.{vault_of}
use dlmm_auto_sell_assets_in.Ledger.Steps.{Reach, Reach-IsConsistent}
use dlmm_auto_sell_assets_in.Ledger.Conservation.{all_changes, rewards_covered}
use dlmm_auto_sell_assets_in.Ledger.Configuration.{Reach-IsConfigured}
use dlmm_auto_sell_assets_in.Ledger.Custody.{IsCustody, stakes_covered}

-- The ledger of a new pool.
abbrev pub genesis : StakingPool → Bank → Ledger
genesis pool bank = record { staking_pool = pool; stakers = []; bank = bank }

initialized :
    (a : InitializeAccounts) (crank : Pubkey) (fee_bps min_stake : ℕ) (pool : StakingPool)
    → handle_initialize a crank fee_bps min_stake ≡ ok pool
    → (pool.total_staked ≡ 0)
      × (pool.total_weighted_stake ≡ 0)
      × (pool.brain_vault ≡ a.brain_vault)
      × IsConfigured pool
unfolding handle_initialize
initialized a crank fee_bps min_stake pool h = (
  ground arith,
  ground arith,
  ground arith,
  record { fee = ground arith; min_stake = ground arith },
)

genesis-IsConsistent :
    (a : InitializeAccounts) (crank : Pubkey) (fee_bps min_stake : ℕ) (pool : StakingPool)
    (bank : Bank)
    → handle_initialize a crank fee_bps min_stake ≡ ok pool
    → IsConsistent (genesis pool bank)
genesis-IsConsistent a crank fee_bps min_stake pool bank h =
    let (staked, weight, _, _) = initialized a crank fee_bps min_stake pool h in
    record { staked = staked; weight = weight; sound = tt }

pub genesis-IsCustody :
    (rt : Runtime)
    → IsRuntime rt
    → (a : InitializeAccounts) (crank : Pubkey) (fee_bps min_stake : ℕ) (pool : StakingPool)
      (bank : Bank) {l : Ledger}
    → handle_initialize a crank fee_bps min_stake ≡ ok pool
    → (bank.tokens a.brain_vault).owner ≡ rt.pool_key
    → Reach rt (genesis pool bank) l
    → IsCustody rt l
genesis-IsCustody rt laws a crank fee_bps min_stake pool bank h owned r =
    let (staked, _, vault, _) = initialized a crank fee_bps min_stake pool h in
    let custody : IsCustody rt (genesis pool bank) = record {
      owned = rw vault owned;
      covered = rw staked (omega arith);
    } in
    (stakes_covered rt laws r (genesis-IsConsistent a crank fee_bps min_stake pool bank h)
      custody).0

-- Over transfers that move what they are asked to and nothing else, from the initialization of a pool
-- whose new BRAIN vault belongs to it, and whatever staking, administrative and halting instructions run
-- then, in any order: the fee is at most five per cent and the minimum stake positive; what the stakers have earned and not been paid is
-- at most the lamports in the reward vault and one for each claim that changed a tier; and the BRAIN
-- vault holds at least the total stake, which is the sum of what the stakers have staked.
pub pool_covered :
    (rt : Runtime)
    → IsRuntime rt
    → (a : InitializeAccounts) (crank : Pubkey) (fee_bps min_stake : ℕ) (pool : StakingPool)
      (bank : Bank) {l : Ledger}
    → handle_initialize a crank fee_bps min_stake ≡ ok pool
    → (bank.tokens a.brain_vault).owner ≡ rt.pool_key
    → (r : Reach rt (genesis pool bank) l)
    → IsConfigured l.staking_pool
      × (sum_by (earned l.staking_pool) l.stakers ≤ vault_of l + all_changes r)
      × (l.staking_pool.total_staked ≤ (l.bank.tokens l.staking_pool.brain_vault).amount)
      × (l.staking_pool.total_staked ≡ sum_by staked_of l.stakers)
pool_covered rt laws a crank fee_bps min_stake pool bank {l} h owned r =
    let (_, weight, _, configured) = initialized a crank fee_bps min_stake pool h in
    let consistent = genesis-IsConsistent a crank fee_bps min_stake pool bank h in
    let custody : IsCustody rt l =
      genesis-IsCustody rt laws a crank fee_bps min_stake pool bank h owned r in
    (
      Reach-IsConfigured rt r consistent configured,
      rewards_covered rt laws r consistent (omega arith),
      custody.covered,
      (Reach-IsConsistent rt r consistent).staked,
    )
