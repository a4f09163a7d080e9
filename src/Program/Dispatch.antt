-- ===== src/Program/Dispatch.antt =====
-- lib.rs: each instruction on the accounts of the program.
use dlmm_auto_sell_assets_in.Base.{ℕ, Bool, List, true, false, Option, none, some, is_empty}
use dlmm_auto_sell_assets_in.Base.Assoc.{lookup, insert}
use dlmm_auto_sell_assets_in.Errors.{Result, ok, account_in_use, constraint, ◌>>=◌, ◌>>◌}
use dlmm_auto_sell_assets_in.State.{Pubkey, StakingPool, StakerAccount, DlmmExit, Proposal}
use dlmm_auto_sell_assets_in.Admin
use dlmm_auto_sell_assets_in.Exits
use dlmm_auto_sell_assets_in.Halt.{HaltContext, handle_emergency_halt}
use dlmm_auto_sell_assets_in.Ledger
use dlmm_auto_sell_assets_in.Ledger.{existing}
use dlmm_auto_sell_assets_in.Governance.Config.{initialize_governance, set_quorum, set_auto_execute}
use dlmm_auto_sell_assets_in.Governance.Execution.{
  update_treasury_by_governance, update_pool_config_by_governance,
}
use dlmm_auto_sell_assets_in.Governance.Proposals.{Draft, create_proposal}
use dlmm_auto_sell_assets_in.Governance.Election.{
  Election, opened, vote, withdraw_record, close_election, execute_election,
}
use dlmm_auto_sell_assets_in.Program.{
  Framework, Environment, Program, call_of, pool_of, on_ledger, on_pool, on_config, on_election,
  put_pool, put_tracker, on_tracker,
}
use dlmm_auto_sell_assets_in.Program.Instruction

-- What stands at the address of a proposal.
abbrev pub proposal_at : Option Election → Option Proposal
proposal_at none = none
proposal_at (some e) = some e.proposal

-- The voter's stake, where the client passes its account.
abbrev pub stake_account : Bool → Pubkey → Ledger.Ledger → Result (Option StakerAccount)
stake_account false voter l = ok none
stake_account true voter l = do s ← existing (lookup voter l.stakers); ok (some s)

-- A new tracker, at the address of its asset and pool.
unfoldable pub process_initiate_exit :
    Framework → Environment → Pubkey → Pubkey → Pubkey → Program → Result Program
process_initiate_exit fw env asset_mint dlmm_pool position s = do
  let key = fw.tracker_key asset_mint dlmm_pool
  constraint (is_empty (s.accounts key).bytes) account_in_use
  e ← Exits.initiate_exit (call_of fw env) asset_mint dlmm_pool position (pool_of s) none
  ok (put_tracker fw key (some e) s)

-- A new tracker that a proposal asked for, and the proposal as executed.
unfoldable pub process_governance_exit :
    Framework → Environment → ℕ → Pubkey → Pubkey → Pubkey → Program → Result Program
process_governance_exit fw env id asset_mint dlmm_pool position s = do
  let key = fw.tracker_key asset_mint dlmm_pool
  config ← existing s.governance_config
  e ← existing (lookup id s.elections)
  constraint (is_empty (s.accounts key).bytes) account_in_use
  (exit, e') ←
      execute_election (call_of fw env) asset_mint dlmm_pool position (pool_of s) config none e
  ok (put_tracker fw key (some exit) (record s { elections = insert id e' s.elections }))

unfoldable pub process_create_proposal : Framework → Environment → Draft → Program → Result Program
process_create_proposal fw env draft s = do
  config ← existing s.governance_config
  (proposal, config') ←
      create_proposal env.signer fw.runtime.pool_key env.now env.bump draft
        (proposal_at (lookup config.next_proposal_id s.elections)) (pool_of s) config
  ok (record s {
    governance_config = some config';
    elections = insert config.next_proposal_id (opened proposal) s.elections;
  })

unfoldable pub process_cast_vote :
    Framework → Environment → ℕ → Pubkey → Bool → ℕ → Program → Result Program
process_cast_vote fw env id voter_brain_ata with_staker option_index s = do
  config ← existing s.governance_config
  staker ← stake_account with_staker env.signer s.ledger
  on_election id
      (vote env.signer env.now env.bump option_index (s.ledger.bank.tokens voter_brain_ata) staker
        (pool_of s))
      s

abbrev pub halt_context : Framework → Environment → HaltContext
halt_context fw env = record {
  program_id = fw.program_id;
  discriminator = fw.discriminator;
  pool_key = fw.runtime.pool_key;
  now = env.now;
}

unfoldable pub process_emergency_halt :
    Framework → Environment → List Pubkey → Program → Result Program
process_emergency_halt fw env remaining_accounts s = do
  (pool, accounts) ←
      handle_emergency_halt (halt_context fw env) env.signer remaining_accounts (pool_of s)
        s.accounts
  ok (record (put_pool pool s) { accounts = accounts })

-- The two updates write neither the pool nor the proposal back.
abbrev pub unwritten : ℕ → (Proposal → Result (StakingPool × Proposal)) → Program → Result Program
unwritten id f s = do
  config ← existing s.governance_config
  e ← existing (lookup id s.elections)
  discarded ← f e.proposal
  ok s

abbrev pub still_open : Result DlmmExit → Result (Option DlmmExit)
still_open r = do e ← r; ok (some e)

unfoldable pub process :
    Framework → Environment → Instruction.Instruction → Program → Result Program
process fw env (Instruction.stake user_brain_ata brain_vault amount) =
    on_ledger
      (Ledger.stake fw.runtime env.signer user_brain_ata brain_vault env.now env.bump amount)
process fw env (Instruction.deposit_rewards reward_vault treasury amount) =
    on_ledger (Ledger.deposit_rewards fw.runtime env.signer reward_vault treasury amount)
process fw env (Instruction.claim reward_vault) =
    on_ledger (Ledger.claim fw.runtime env.signer reward_vault env.now)
process fw env (Instruction.unstake brain_vault user_brain_ata reward_vault) =
    on_ledger (Ledger.unstake fw.runtime env.signer brain_vault user_brain_ata reward_vault env.now)
process fw env (Instruction.emergency_rescue user_brain_ata brain_vault reward_vault) =
    on_ledger
      (Ledger.emergency_rescue fw.runtime env.signer user_brain_ata brain_vault reward_vault)
process fw env (Instruction.initiate_exit asset_mint dlmm_pool position) =
    process_initiate_exit fw env asset_mint dlmm_pool position
process fw env (Instruction.record_claim dlmm_exit amount) = λ s.
    on_tracker fw dlmm_exit
      (λ e. still_open (Exits.record_claim (call_of fw env) amount (pool_of s) e)) s
process fw env (Instruction.complete_exit dlmm_exit) = λ s.
    on_tracker fw dlmm_exit (λ e. still_open (Exits.complete_exit (call_of fw env) (pool_of s) e)) s
process fw env (Instruction.terminate_exit dlmm_exit) = λ s.
    on_tracker fw dlmm_exit (λ e. still_open (Exits.terminate_exit (call_of fw env) (pool_of s) e))
      s
process fw env (Instruction.close_dlmm_exit dlmm_exit) =
    λ s. on_tracker fw dlmm_exit (Exits.close_dlmm_exit (call_of fw env) (pool_of s)) s
process fw env (Instruction.emergency_halt remaining_accounts) =
    process_emergency_halt fw env remaining_accounts
process fw env Instruction.resume = on_pool (Admin.resume env.signer)
process fw env (Instruction.update_crank new_crank) =
    on_pool (Admin.update_crank env.signer new_crank)
process fw env (Instruction.update_treasury new_treasury) =
    on_pool (Admin.update_treasury env.signer new_treasury)
process fw env (Instruction.update_pool_config new_min_stake new_protocol_fee_bps) =
    on_pool (Admin.update_pool_config env.signer new_min_stake new_protocol_fee_bps)
process fw env (Instruction.transfer_ownership new_owner) =
    on_pool (Admin.transfer_ownership env.signer new_owner)
process fw env Instruction.accept_ownership = on_pool (Admin.accept_ownership env.signer)
process fw env Instruction.renounce_ownership =
    on_pool (Admin.renounce_ownership fw.from_str env.signer)
process fw env Instruction.initialize_governance = λ s. (do
  config ←
      initialize_governance env.signer fw.runtime.pool_key env.bump (pool_of s) s.governance_config
  ok (record s { governance_config = some config }))
process fw env (Instruction.set_auto_execute enabled) =
    λ s. on_config (set_auto_execute env.signer enabled (pool_of s)) s
process fw env (Instruction.set_quorum min_quorum_bps) =
    λ s. on_config (set_quorum env.signer min_quorum_bps (pool_of s)) s
process fw env (Instruction.create_proposal draft) = process_create_proposal fw env draft
process fw env (Instruction.cast_vote id voter_brain_ata with_staker option_index) =
    process_cast_vote fw env id voter_brain_ata with_staker option_index
process fw env (Instruction.close_proposal id) = λ s. (do
  config ← existing s.governance_config
  on_election id (close_election env.now (pool_of s) config) s)
process fw env (Instruction.close_vote_record id) = on_election id (withdraw_record env.signer)
process fw env (Instruction.governance_initiate_exit id asset_mint dlmm_pool position) =
    process_governance_exit fw env id asset_mint dlmm_pool position
process fw env (Instruction.update_treasury_by_governance id new_treasury) =
    λ s. unwritten id (update_treasury_by_governance env.signer env.now new_treasury (pool_of s)) s
process fw env (Instruction.update_pool_config_by_governance id min_stake fee_bps) = λ s.
    unwritten id (update_pool_config_by_governance env.signer env.now min_stake fee_bps (pool_of s))
      s
