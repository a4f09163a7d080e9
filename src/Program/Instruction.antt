-- ===== src/Program/Instruction.antt =====
-- The instructions of lib.rs, with the accounts that the client chooses and the arguments. Those that
-- make the pool or resize an account stand in Staking.Initialize and Realloc.
use dlmm_auto_sell_assets_in.Base.{ℕ, Bool, Option, List}
use dlmm_auto_sell_assets_in.State.{Pubkey}
use dlmm_auto_sell_assets_in.Governance.Proposals.{Draft}

pub data Instruction : Type 0 where
  stake : (user_brain_ata brain_vault : Pubkey) (amount : ℕ) → Instruction
  deposit_rewards : (reward_vault treasury : Pubkey) (amount : ℕ) → Instruction
  claim : (reward_vault : Pubkey) → Instruction
  unstake : (brain_vault user_brain_ata reward_vault : Pubkey) → Instruction
  initiate_exit : (asset_mint dlmm_pool position : Pubkey) → Instruction
  record_claim : (dlmm_exit : Pubkey) (amount : ℕ) → Instruction
  complete_exit : (dlmm_exit : Pubkey) → Instruction
  terminate_exit : (dlmm_exit : Pubkey) → Instruction
  close_dlmm_exit : (dlmm_exit : Pubkey) → Instruction
  emergency_halt : (remaining_accounts : List Pubkey) → Instruction
  resume : Instruction
  update_crank : (new_crank : Pubkey) → Instruction
  initialize_governance : Instruction
  create_proposal : (draft : Draft) → Instruction
  cast_vote :
      (proposal_id : ℕ) (voter_brain_ata : Pubkey) (with_staker : Bool) (option_index : ℕ)
      → Instruction
  close_proposal : (proposal_id : ℕ) → Instruction
  governance_initiate_exit :
      (proposal_id : ℕ) (asset_mint dlmm_pool position : Pubkey) → Instruction
  set_auto_execute : (enabled : Bool) → Instruction
  transfer_ownership : (new_owner : Pubkey) → Instruction
  accept_ownership : Instruction
  update_treasury : (new_treasury : Pubkey) → Instruction
  update_treasury_by_governance : (proposal_id : ℕ) (new_treasury : Pubkey) → Instruction
  set_quorum : (min_quorum_bps : ℕ) → Instruction
  update_pool_config : (new_min_stake new_protocol_fee_bps : Option ℕ) → Instruction
  update_pool_config_by_governance :
      (proposal_id : ℕ) (new_min_stake new_protocol_fee_bps : Option ℕ) → Instruction
  close_vote_record : (proposal_id : ℕ) → Instruction
  emergency_rescue : (user_brain_ata brain_vault reward_vault : Pubkey) → Instruction
  renounce_ownership : Instruction
