-- ===== src/Governance/Execution.antt =====
-- What a passed proposal lets happen: governance_initiate_exit.rs, update_treasury_by_governance.rs
-- and update_pool_config_by_governance.rs. The last two mark neither the pool nor the proposal as
-- `mut`; the functions below give the accounts as the handlers leave them in memory.
pub mod Timelock
use dlmm_auto_sell_assets_in.Base.{
  ℕ, Option, Bool, true, false, not, ◌&&◌, ◌||◌, ◌==◌, if◌then◌else◌,
}
use dlmm_auto_sell_assets_in.Base.Int.{ℤ, pos, ltb_ℤ, leb_ℤ, saturating_sub}
use dlmm_auto_sell_assets_in.Errors.{
  Result, ok, unauthorized, pool_paused, proposal_not_passed, invalid_proposal_state,
  invalid_proposal_type, proposal_already_executed, invalid_pending_owner, account_in_use, require,
  constraint, ◌>>=◌, ◌>>◌,
}
use dlmm_auto_sell_assets_in.Constants.{
  min_execution_delay_seconds, proposal_type_sell, proposal_type_treasury_update,
  proposal_type_config_update,
}
use dlmm_auto_sell_assets_in.State.{Pubkey, StakingPool, DlmmExit, GovernanceConfig, Proposal}
use dlmm_auto_sell_assets_in.Exits.{Call, new_exit, is_none}
use dlmm_auto_sell_assets_in.Admin.{set_min_stake, set_fee}

-- `if proposal.passed_at > 0 { … require!(time_since_passed >= MIN_EXECUTION_DELAY_SECONDS, …) }`
unfoldable pub check_timelock : ℤ → Proposal → Result (Unit {0})
unfolding saturating_sub
check_timelock now proposal =
    if ltb_ℤ (pos 0) proposal.passed_at
    then require (leb_ℤ (pos min_execution_delay_seconds) (saturating_sub now proposal.passed_at))
        proposal_not_passed
    else ok tt

unfoldable pub governance_initiate_exit :
    Call
    → Pubkey
    → Pubkey
    → Pubkey
    → StakingPool
    → GovernanceConfig
    → Option DlmmExit
    → Proposal
    → Result (DlmmExit × Proposal)
governance_initiate_exit call asset_mint dlmm_pool position pool config account proposal = do
  constraint (is_none account) account_in_use
  require (not pool.is_paused) pool_paused
  require (call.authority == pool.owner || call.authority == pool.crank && config.auto_execute)
      unauthorized
  require (proposal.status == 1) proposal_not_passed
  check_timelock call.now proposal
  require (proposal.winning_option_index == 0) invalid_proposal_state
  require (proposal.proposal_type == proposal_type_sell) invalid_proposal_type
  require (not proposal.executed) proposal_already_executed
  ok (
    new_exit call pool.owner asset_mint dlmm_pool position proposal.id,
    record proposal { executed = true },
  )

unfoldable pub update_treasury_by_governance :
    Pubkey → ℤ → Pubkey → StakingPool → Proposal → Result (StakingPool × Proposal)
update_treasury_by_governance owner now new_treasury pool proposal = do
  require (owner == pool.owner) unauthorized
  require (proposal.status == 1) proposal_not_passed
  require (proposal.proposal_type == proposal_type_treasury_update) invalid_proposal_type
  check_timelock now proposal
  require (not (new_treasury == pool.reward_vault)) invalid_pending_owner
  require (not (new_treasury == pool.brain_vault)) invalid_pending_owner
  ok (record pool { treasury = new_treasury }, record proposal { executed = true })

unfoldable pub update_pool_config_by_governance :
    Pubkey → ℤ → Option ℕ → Option ℕ → StakingPool → Proposal → Result (StakingPool × Proposal)
update_pool_config_by_governance owner now new_min_stake new_protocol_fee_bps pool proposal = do
  require (owner == pool.owner) unauthorized
  require (proposal.status == 1) proposal_not_passed
  require (proposal.proposal_type == proposal_type_config_update) invalid_proposal_type
  check_timelock now proposal
  pool' ← set_min_stake new_min_stake pool
  pool'' ← set_fee new_protocol_fee_bps pool'
  ok (pool'', record proposal { executed = true })
