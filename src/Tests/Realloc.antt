-- ===== src/Tests/Realloc.antt =====
-- An account of the governance settings and a passed proposal that grow.
use dlmm_auto_sell_assets_in.Base.{◌≡◌, ◌≢◌, ◌≤◌, ◌⊎◌, arith, refl, false, none, [], ◌∷◌}
use dlmm_auto_sell_assets_in.Errors.{ok}
use dlmm_auto_sell_assets_in.Checked.{checked_sub, checked_add, try_from}
use dlmm_auto_sell_assets_in.State.{GovernanceConfig, Proposal}
use dlmm_auto_sell_assets_in.Runtime.{Bank, update, sub_lamports, add_lamports}
use dlmm_auto_sell_assets_in.Exits.{new_exit}
use dlmm_auto_sell_assets_in.Governance.Execution.{governance_initiate_exit}
use dlmm_auto_sell_assets_in.Governance.Voting.{close_vote_record}
use dlmm_auto_sell_assets_in.Governance.Election.{Election, withdraw_record, here, next, withdrawn}
use dlmm_auto_sell_assets_in.Realloc.{
  Resizing, new_size, Resized, grow_account, realloc_account, realloc_proposal,
}
use dlmm_auto_sell_assets_in.Realloc.Growth.{
  SetsLength, realloc_grows, grown_proposal_not_executable,
}
use dlmm_auto_sell_assets_in.Tests.{toy, toy_system, toy-IsRuntime, pool, bank}
use dlmm_auto_sell_assets_in.Tests.Governance.{config, busy_pool, passed, ballot, call, sold}

-- Account 70 has 40 bytes and no lamports.
abbrev resizing : Resizing
resizing = record { key = 70; data_len = 40; init_space = 44; realloc = λ old new. ok new }

resizing-SetsLength : SetsLength resizing
resizing-SetsLength = λ old new len h. ground arith

abbrev poor : Bank
poor = record bank { lamports = update bank.lamports 70 0 }

abbrev reset : GovernanceConfig → GovernanceConfig
reset c = record c { auto_execute = false; min_quorum_bps = 0 }

abbrev grown : Resized GovernanceConfig
grown = record {
  account = reset config;
  len = 52;
  bank = record poor { lamports = update (update poor.lamports 1 19999109120) 70 890880 };
}

realloc_runs : realloc_account reset toy 1 resizing pool config poor ≡ ok grown
unfolding realloc_account grow_account toy_system sub_lamports add_lamports checked_sub checked_add
    try_from
realloc_runs = refl

realloc_grows_example :
    (1 ≡ pool.owner)
    × (new_size resizing ≤ grown.len)
    × ((resizing.data_len ≡ grown.len)
        ⊎ (toy.minimum_balance (new_size resizing) ≤ grown.bank.lamports 70))
    × (realloc_account reset toy 1
          (record resizing { data_len = grown.len })
          pool
          grown.account
          grown.bank
        ≡ ok grown)
realloc_grows_example =
    realloc_grows toy toy-IsRuntime reset 1 resizing pool config poor grown resizing-SetsLength
      (λ e. omega (arith, e)) realloc_runs

abbrev grown_passed : Resized Proposal
grown_passed = record {
  account = record passed { winning_option_index = 255; executed = false };
  len = 52;
  bank = grown.bank;
}

realloc_proposal_runs : realloc_proposal toy 1 resizing pool passed poor ≡ ok grown_passed
unfolding realloc_proposal realloc_account grow_account toy_system sub_lamports add_lamports
    checked_sub checked_add try_from
realloc_proposal_runs = refl

-- The voter withdraws the record of the vote after the growth.
abbrev grown_election : Election
grown_election = record { proposal = grown_passed.account; vote_records = (10, ballot) ∷ [] }

abbrev withdrawn_from : Election
withdrawn_from = record grown_election { vote_records = [] }

grown_withdrawal_runs : withdraw_record 10 grown_election ≡ ok withdrawn_from
unfolding withdraw_record close_vote_record
grown_withdrawal_runs = refl

grown_proposal_not_executable_example :
    governance_initiate_exit call 30 31 32 busy_pool config none withdrawn_from.proposal
    ≢ ok (new_exit call 1 30 31 32 7, sold)
grown_proposal_not_executable_example =
    grown_proposal_not_executable toy 1 resizing pool busy_pool passed poor grown_passed
      grown_election.vote_records withdrawn_from call 30 31 32 config none
      (new_exit call 1 30 31 32 7, sold) (λ e. omega (arith, e)) (omega arith) realloc_proposal_runs
      (next here (withdrawn 10 grown_withdrawal_runs))
