-- ===== src/Tests/Program.antt =====
-- The program from its initialization: a stake, the governance settings and a new crank.
use dlmm_auto_sell_assets_in.Base.{
  ◌+◌, ◌≡◌, ◌≢◌, ◌⊎◌, ◌≤◌, arith, refl, none, some, true, false, [], ◌∷◌,
}
use dlmm_auto_sell_assets_in.Base.Int.{pos, saturating_sub}
use dlmm_auto_sell_assets_in.Base.Assoc.{sum_by}
use dlmm_auto_sell_assets_in.Errors.{ok}
use dlmm_auto_sell_assets_in.Checked.{checked_add, try_from}
use dlmm_auto_sell_assets_in.State.{Pubkey, Proposal}
use dlmm_auto_sell_assets_in.Admin.{update_crank}
use dlmm_auto_sell_assets_in.Admin.Changes.{IsConfigured}
use dlmm_auto_sell_assets_in.Halt.{AccountInfo}
use dlmm_auto_sell_assets_in.Staking.Stake.{handle_stake}
use dlmm_auto_sell_assets_in.Staking.Unstake.Outcome.{earned}
use dlmm_auto_sell_assets_in.Ledger.{stake}
use dlmm_auto_sell_assets_in.Ledger.Solvency.{vault_of}
use dlmm_auto_sell_assets_in.Ledger.Consistency.{staked_of}
use dlmm_auto_sell_assets_in.Governance.Config.{initialize_governance}
use dlmm_auto_sell_assets_in.Program.{Framework, Environment, Program, pool_of, put_pool}
use dlmm_auto_sell_assets_in.Program.Instruction
use dlmm_auto_sell_assets_in.Program.Dispatch.{process, process_create_proposal, process_cast_vote}
use dlmm_auto_sell_assets_in.Program.Coverage.{
  Run, begun, processed, launched, claims, program_covered,
}
use dlmm_auto_sell_assets_in.Governance.Proposals.{create_proposal}
use dlmm_auto_sell_assets_in.Governance.Voting.{staked_amount_of, vote_weight, add_vote, cast_vote}
use dlmm_auto_sell_assets_in.Governance.Election.{Election, opened, vote}
use dlmm_auto_sell_assets_in.Governance.Election.Tally.{IsTallied}
use dlmm_auto_sell_assets_in.Program.Ballots.{IsGenuine, program_elections}
use dlmm_auto_sell_assets_in.Tests.Governance.{draft}
use dlmm_auto_sell_assets_in.Tests.{toy, toy_token, toy-IsRuntime, bank}
use dlmm_auto_sell_assets_in.Tests.Leaving.{toy_token_checked}
use dlmm_auto_sell_assets_in.Tests.Genesis.{accounts, new_pool, initialize_runs, first}
use dlmm_auto_sell_assets_in.Tests.Halt.{discriminator, encode}

abbrev framework : Framework
framework = record {
  runtime = toy;
  program_id = 100;
  discriminator = discriminator;
  tracker_key = λ mint pool. mint + pool;
  decode = λ bytes. none;
  encode = encode;
  from_str = λ text. none;
}

abbrev no_accounts : Pubkey → AccountInfo
no_accounts = λ key. record { owner = 0; is_writable = false; bytes = [] }

abbrev user_env : Environment
user_env = record { signer = 10; now = pos 50; bump = 252 }

abbrev owner_env : Environment
owner_env = record { signer = 1; now = pos 60; bump = 251 }

abbrev new_program : Program
new_program = launched new_pool bank no_accounts

abbrev with_stake : Program
with_stake = record new_program { ledger = first }

abbrev with_settings : Program
with_settings = record with_stake {
  governance_config = some (record {
    pool = 9;
    next_proposal_id = 0;
    auto_execute = false;
    min_quorum_bps = 0;
    bump = 251;
  });
}

abbrev with_crank : Program
with_crank = put_pool (record (first.staking_pool) { crank = 77 }) with_settings

stake_processed :
    process framework user_env (Instruction.stake 20 4 200) new_program ≡ ok with_stake
unfolding process stake handle_stake toy_token checked_add try_from
stake_processed = refl

settings_processed :
    process framework owner_env Instruction.initialize_governance with_stake ≡ ok with_settings
unfolding process initialize_governance
settings_processed = refl

crank_processed :
    process framework owner_env (Instruction.update_crank 77) with_settings ≡ ok with_crank
unfolding process update_crank
crank_processed = refl

governed : Run framework new_program with_settings
governed =
    processed owner_env Instruction.initialize_governance
      (processed user_env (Instruction.stake 20 4 200) begun
        (λ e. omega (arith, e), λ e. omega (arith, e)) (λ e. omega (arith, e)) stake_processed)
      (λ e. omega (arith, e), λ e. omega (arith, e)) (λ e. omega (arith, e)) settings_processed

run : Run framework new_program with_crank
run =
    processed owner_env (Instruction.update_crank 77) governed
      (λ e. omega (arith, e), λ e. omega (arith, e)) (λ e. omega (arith, e)) crank_processed

program_covered_example :
    IsConfigured (pool_of with_crank)
    × (sum_by (earned (pool_of with_crank)) with_crank.ledger.stakers
        ≤ vault_of with_crank.ledger + claims run)
    × ((pool_of with_crank).total_staked
        ≤ (with_crank.ledger.bank.tokens (pool_of with_crank).brain_vault).amount)
    × ((pool_of with_crank).total_staked ≡ sum_by staked_of with_crank.ledger.stakers)
program_covered_example =
    program_covered framework toy-IsRuntime toy_token_checked accounts 2 200 100 new_pool bank
      no_accounts initialize_runs refl run

-- The owner opens a proposal.
abbrev proposal : Proposal
proposal = record {
  id = 0;
  pool = 9;
  proposer = 1;
  title = "Sell";
  description_uri = "ipfs://sell";
  proposal_type = 1;
  options = "yes" ∷ "no" ∷ [];
  vote_counts = 0 ∷ 0 ∷ [];
  voting_starts = pos 1000;
  voting_ends = pos 101000;
  status = 0;
  total_vote_weight = 0;
  winning_option_index = 255;
  executed = false;
  passed_at = pos 0;
  quorum_snapshot = 0;
  bump = 251;
}

-- And user 10 votes yes, with 300 in the wallet and 200 staked.
abbrev with_proposal : Program
with_proposal = record with_settings {
  governance_config = some (record {
    pool = 9;
    next_proposal_id = 1;
    auto_execute = false;
    min_quorum_bps = 0;
    bump = 251;
  });
  elections = (0, opened proposal) ∷ [];
}

abbrev election : Election
election = record {
  proposal = record proposal { vote_counts = 700 ∷ 0 ∷ []; total_vote_weight = 700 };
  vote_records =
      (
        10,
        record {
          proposal_id = 0;
          voter = 10;
          option_index = 0;
          weight = 700;
          voted_at = pos 2000;
          bump = 249;
        },
      )
      ∷ [];
}

abbrev with_vote : Program
with_vote = record with_proposal { elections = (0, election) ∷ [] }

abbrev voter_env : Environment
voter_env = record { signer = 10; now = pos 2000; bump = 249 }

proposal_processed :
    process framework owner_env (Instruction.create_proposal draft) with_settings ≡ ok with_proposal
unfolding process process_create_proposal create_proposal saturating_sub checked_add
proposal_processed = refl

vote_processed :
    process framework voter_env (Instruction.cast_vote 0 20 true 0) with_proposal ≡ ok with_vote
unfolding process process_cast_vote vote cast_vote staked_amount_of vote_weight add_vote
vote_processed = refl

voting_run : Run framework new_program with_vote
voting_run =
    processed voter_env (Instruction.cast_vote 0 20 true 0)
      (processed owner_env (Instruction.create_proposal draft) governed
        (λ e. omega (arith, e), λ e. omega (arith, e)) (λ e. omega (arith, e)) proposal_processed)
      (λ e. omega (arith, e), λ e. omega (arith, e)) (λ e. omega (arith, e)) vote_processed

program_elections_example :
    (g : IsGenuine 0 election) × ((election.proposal.status ≢ 0) ⊎ IsTallied g.origin election)
program_elections_example =
    program_elections framework new_pool bank no_accounts 0 election voting_run refl
