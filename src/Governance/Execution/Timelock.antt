-- ===== src/Governance/Execution/Timelock.antt =====
-- What has to hold before a passed proposal is executed, and that a sell proposal runs once.
use dlmm_auto_sell_assets_in.Base.{
  ◌≡◌, ◌≢◌, ◌⊎◌, inl, inr, arith, Option, none, true, false, Bool-cases,
}
use dlmm_auto_sell_assets_in.Base.Int.{ℤ, pos, ◌≤ℤ◌, ◌+ℤ◌, ltb_ℤ, leb-saturating_sub}
use dlmm_auto_sell_assets_in.Errors.{ok}
use dlmm_auto_sell_assets_in.Constants.{min_execution_delay_seconds, proposal_type_sell}
use dlmm_auto_sell_assets_in.State.{Pubkey, StakingPool, DlmmExit, GovernanceConfig, Proposal}
use dlmm_auto_sell_assets_in.Exits.{Call, new_exit}
use dlmm_auto_sell_assets_in.Governance.Execution.{
  check_timelock, governance_initiate_exit, update_treasury_by_governance,
}

-- Forty-eight hours have gone by since the proposal passed, if it carries the time of its passing.
abbrev pub DelayOver : ℤ → Proposal → Type 0
DelayOver now p = (p.passed_at ≤ℤ pos 0) ⊎ (p.passed_at +ℤ pos min_execution_delay_seconds ≤ℤ now)

check_timelock-DelayOver : (now : ℤ) (p : Proposal) → check_timelock now p ≡ ok tt → DelayOver now p
unfolding check_timelock
check_timelock-DelayOver now p h = elim (Bool-cases (ltb_ℤ (pos 0) p.passed_at)) [
  | inl timed ↦ inr (ground (arith, leb-saturating_sub min_execution_delay_seconds now p.passed_at))
  | inr untimed ↦ inl (ground arith)
]

-- A governance exit that is initiated: the pool runs, the signer is the owner, or the crank while
-- automatic execution is on, and the proposal has passed by its first option, is a sell proposal, is
-- past its delay and was not executed; it is executed now, and the exit is a new one that names it.
pub governance_exit_needs :
    (call : Call) (asset_mint dlmm_pool position : Pubkey) (pool : StakingPool)
    (config : GovernanceConfig) (account : Option DlmmExit) (p p' : Proposal) (e : DlmmExit)
    → governance_initiate_exit call asset_mint dlmm_pool position pool config account p ≡ ok (e, p')
    → (account ≡ none)
      × (pool.is_paused ≡ false)
      × ((call.authority ≡ pool.owner)
          ⊎ ((call.authority ≡ pool.crank) × (config.auto_execute ≡ true)))
      × (p.status ≡ 1)
      × (p.winning_option_index ≡ 0)
      × (p.proposal_type ≡ proposal_type_sell)
      × (p.executed ≡ false)
      × DelayOver call.now p
      × (p' ≡ record p { executed = true })
      × (e ≡ new_exit call pool.owner asset_mint dlmm_pool position p.id)
unfolding governance_initiate_exit
governance_exit_needs call asset_mint dlmm_pool position pool config account p p' e h = (
  ground arith,
  ground arith,
  ground arith,
  ground arith,
  ground arith,
  ground arith,
  ground arith,
  check_timelock-DelayOver call.now p (ground arith),
  ground arith,
  ground arith,
)

DelayOver-check_timelock : (now : ℤ) (p : Proposal) → DelayOver now p → check_timelock now p ≡ ok tt
unfolding check_timelock
DelayOver-check_timelock now p (inl untimed) = ground arith
DelayOver-check_timelock now p (inr waited) =
    ground (arith, leb-saturating_sub min_execution_delay_seconds now p.passed_at)

-- A governance exit is never refused without a reason: for a proposal that passed by its first option, is
-- a sell proposal, is past its delay and was not executed, while the pool runs, no tracker stands at the
-- address, and the signer is the owner, or the crank while automatic execution is on, it succeeds.
pub governance_exit_allowed :
    (call : Call) (asset_mint dlmm_pool position : Pubkey) (pool : StakingPool)
    (config : GovernanceConfig) (account : Option DlmmExit) (p : Proposal)
    → account ≡ none
    → pool.is_paused ≡ false
    → (call.authority ≡ pool.owner) ⊎ ((call.authority ≡ pool.crank) × (config.auto_execute ≡ true))
    → p.status ≡ 1
    → p.winning_option_index ≡ 0
    → p.proposal_type ≡ proposal_type_sell
    → p.executed ≡ false
    → DelayOver call.now p
    → governance_initiate_exit call asset_mint dlmm_pool position pool config account p
      ≡ ok (
        new_exit call pool.owner asset_mint dlmm_pool position p.id,
        record p { executed = true },
      )
unfolding governance_initiate_exit
governance_exit_allowed call asset_mint dlmm_pool position pool config account p vacant runs signed
      passed first sell fresh waited =
    let timed = DelayOver-check_timelock call.now p waited in ground arith

-- After a governance exit, no later call, by whoever, whenever and for whatever asset, succeeds on the
-- same proposal.
pub governance_exit_once :
    (call later : Call) (asset_mint dlmm_pool position asset_mint' dlmm_pool' position' : Pubkey)
    (pool pool' : StakingPool) (config config' : GovernanceConfig)
    (account account' : Option DlmmExit) (p p' : Proposal) (e : DlmmExit) (r : DlmmExit × Proposal)
    → governance_initiate_exit call asset_mint dlmm_pool position pool config account p ≡ ok (e, p')
    → governance_initiate_exit later asset_mint' dlmm_pool' position' pool' config' account' p'
      ≢ ok r
unfolding governance_initiate_exit
governance_exit_once call later asset_mint dlmm_pool position asset_mint' dlmm_pool' position' pool
      pool' config config' account account' p p' e r h k =
    let done : p'.executed ≡ true = ground arith in
    let fresh : p'.executed ≡ false = ground arith in cc

-- A treasury change by governance can be repeated: after one has succeeded, the handler accepts the
-- same proposal, which is now marked as executed, for any other address that is not a vault.
pub treasury_change_repeats :
    (owner : Pubkey) (now : ℤ) (first second : Pubkey) (pool pool' : StakingPool) (p p' : Proposal)
    → second ≢ pool.reward_vault
    → second ≢ pool.brain_vault
    → update_treasury_by_governance owner now first pool p ≡ ok (pool', p')
    → (p'.executed ≡ true)
      × (update_treasury_by_governance owner now second pool' p'
          ≡ ok (record pool { treasury = second }, p'))
unfolding update_treasury_by_governance check_timelock
treasury_change_repeats owner now first second pool pool' p p' nr nb h =
    (ground arith, ground arith)
