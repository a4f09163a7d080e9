-- ===== src/Tests/Governance.antt =====
-- A proposal from its creation to its execution, and the theorems on it.
use Prim.Native.String.{len}
use dlmm_auto_sell_assets_in.Base.{
  ℕ, ◌+◌, ◌*◌, ◌/◌, ◌≡◌, ◌≢◌, ◌≤◌, ◌<◌, ◌⊎◌, ◌↔◌, inl, inr, arith, refl, Option, none, some, true,
  false, ltb, [], ◌∷◌, length, get_elem?, set,
}
use dlmm_auto_sell_assets_in.Base.Int.{pos, ◌≤ℤ◌, ◌<ℤ◌, ◌+ℤ◌, saturating_sub}
use dlmm_auto_sell_assets_in.Errors.{ok}
use dlmm_auto_sell_assets_in.Checked.{checked_add}
use dlmm_auto_sell_assets_in.Constants.{min_voting_period_seconds, proposal_type_sell}
use dlmm_auto_sell_assets_in.State.{StakingPool, DlmmExit, GovernanceConfig, Proposal, VoteRecord}
use dlmm_auto_sell_assets_in.Runtime.{TokenAccount}
use dlmm_auto_sell_assets_in.Exits.{Call, new_exit}
use dlmm_auto_sell_assets_in.Governance.Proposals.{Draft, create_proposal}
use dlmm_auto_sell_assets_in.Governance.Proposals.Opening.{created_proposal}
use dlmm_auto_sell_assets_in.Governance.Voting.{staked_amount_of, vote_weight, add_vote, cast_vote}
use dlmm_auto_sell_assets_in.Governance.Voting.Accounting.{stake_of, cast_vote_lem}
use dlmm_auto_sell_assets_in.Governance.Voting.Acceptance.{cast_vote_allowed}
use dlmm_auto_sell_assets_in.Governance.Closing.{
  tally, required_votes, quorum_met, resolve, close_proposal,
}
use dlmm_auto_sell_assets_in.Governance.Closing.Plurality.{AllLe, occurrences, tally_plurality}
use dlmm_auto_sell_assets_in.Governance.Closing.Outcome.{
  IsCounted, FirstWins, close_proposal_passes,
}
use dlmm_auto_sell_assets_in.Governance.Execution.{
  check_timelock, governance_initiate_exit, update_treasury_by_governance,
}
use dlmm_auto_sell_assets_in.Governance.Execution.Timelock.{
  DelayOver, governance_exit_needs, governance_exit_once, governance_exit_allowed,
}
use dlmm_auto_sell_assets_in.Tests.{pool, staker}

abbrev no_proposal : Option Proposal
no_proposal = none

abbrev no_record : Option VoteRecord
no_record = none

abbrev pub no_tracker : Option DlmmExit
no_tracker = none

abbrev pub config : GovernanceConfig
config = record {
  pool = 9;
  next_proposal_id = 7;
  auto_execute = false;
  min_quorum_bps = 1000;
  bump = 251;
}

abbrev pub draft : Draft
draft = record {
  title = "Sell";
  description_uri = "ipfs://sell";
  proposal_type = 1;
  options = "yes" ∷ "no" ∷ [];
  voting_starts = pos 1000;
  voting_ends = pos 101000;
}

abbrev pub fresh_proposal : Proposal
fresh_proposal = record {
  id = 7;
  pool = 9;
  proposer = 1;
  title = "Sell";
  description_uri = "ipfs://sell";
  proposal_type = 1;
  options = "yes" ∷ "no" ∷ [];
  vote_counts = 0 ∷ 0 ∷ [];
  voting_starts = pos 1000;
  voting_ends = pos 101000;
  status = 0;
  total_vote_weight = 0;
  winning_option_index = 255;
  executed = false;
  passed_at = pos 0;
  quorum_snapshot = 5000;
  bump = 250;
}

abbrev pub busy_pool : StakingPool
busy_pool = record pool { total_weighted_stake = 5000 }

abbrev pub next_config : GovernanceConfig
next_config = record config { next_proposal_id = 8 }

pub create_runs :
    create_proposal 1 9 (pos 500) 250 draft none busy_pool config ≡ ok (fresh_proposal, next_config)
unfolding create_proposal saturating_sub checked_add
create_runs = refl

created_proposal_example :
    (no_proposal ≡ none)
    × (1 ≡ busy_pool.owner)
    × (busy_pool.is_paused ≡ false)
    × (0 < len fresh_proposal.title)
    × (len fresh_proposal.title ≤ 64)
    × (2 ≤ length fresh_proposal.options)
    × (length fresh_proposal.options ≤ 5)
    × (length fresh_proposal.vote_counts ≡ length fresh_proposal.options)
    × (pos 500 ≤ℤ fresh_proposal.voting_starts)
    × (fresh_proposal.voting_starts +ℤ pos min_voting_period_seconds ≤ℤ fresh_proposal.voting_ends)
    × (fresh_proposal.status ≡ 0)
    × IsCounted fresh_proposal
    × (fresh_proposal.total_vote_weight ≡ 0)
    × (fresh_proposal.quorum_snapshot ≡ busy_pool.total_weighted_stake)
    × (fresh_proposal.id ≡ config.next_proposal_id)
    × (next_config ≡ record config { next_proposal_id = fresh_proposal.id + 1 })
created_proposal_example =
    created_proposal 1 9 (pos 500) 250 draft none busy_pool config next_config fresh_proposal
      create_runs

-- User 10 votes yes with 500 in the wallet and 1000 staked.
abbrev pub wallet : TokenAccount
wallet = record { mint = 3; owner = 10; amount = 500 }

abbrev pub one_vote : Proposal
one_vote = record fresh_proposal { vote_counts = 2500 ∷ 0 ∷ []; total_vote_weight = 2500 }

abbrev pub ballot : VoteRecord
ballot = record {
  proposal_id = 7;
  voter = 10;
  option_index = 0;
  weight = 2500;
  voted_at = pos 2000;
  bump = 249;
}

pub vote_runs :
    cast_vote 10 (pos 2000) 249 0 wallet (some staker) busy_pool none fresh_proposal
    ≡ ok (one_vote, ballot)
unfolding cast_vote staked_amount_of vote_weight add_vote
vote_runs = refl

cast_vote_lem_example :
    (no_record ≡ none)
    × (busy_pool.is_paused ≡ false)
    × (fresh_proposal.status ≡ 0)
    × (fresh_proposal.voting_starts ≤ℤ pos 2000)
    × (pos 2000 <ℤ fresh_proposal.voting_ends)
    × (0 < length fresh_proposal.options)
    × (ballot.weight ≡ wallet.amount + stake_of (some staker) * 2)
    × (0 < ballot.weight)
    × (one_vote.total_vote_weight ≡ fresh_proposal.total_vote_weight + ballot.weight)
    × IsCounted one_vote
    × ((count : ℕ) × (get_elem? fresh_proposal.vote_counts 0 ≡ some count)
        × (one_vote ≡ record fresh_proposal {
          vote_counts = set fresh_proposal.vote_counts 0 (count + ballot.weight);
          total_vote_weight = fresh_proposal.total_vote_weight + ballot.weight;
        }))
cast_vote_lem_example =
    cast_vote_lem 10 (pos 2000) 249 0 wallet (some staker) busy_pool none fresh_proposal one_vote
      ballot vote_runs refl

abbrev pub passed : Proposal
passed = record one_vote { status = 1; winning_option_index = 0; passed_at = pos 101000 }

pub close_runs : close_proposal (pos 101000) busy_pool config one_vote ≡ ok passed
unfolding close_proposal quorum_met required_votes tally resolve
close_runs = refl

close_proposal_passes_example :
    (one_vote.status ≡ 0)
    × (one_vote.voting_ends ≤ℤ pos 101000)
    × ((passed.status ≡ 1) ↔ (
        (0 < one_vote.total_vote_weight)
        × (one_vote.quorum_snapshot * config.min_quorum_bps / 10000 ≤ one_vote.total_vote_weight)
        × FirstWins one_vote.vote_counts))
    × ((passed.status ≡ 1) ⊎ (passed.status ≡ 2))
close_proposal_passes_example =
    close_proposal_passes (pos 101000) busy_pool config one_vote passed refl (omega arith)
      close_runs

tally_plurality_example :
    AllLe (tally (3 ∷ 8 ∷ 8 ∷ [])).max_weight (3 ∷ 8 ∷ 8 ∷ [])
    × (get_elem? (3 ∷ 8 ∷ 8 ∷ []) (tally (3 ∷ 8 ∷ 8 ∷ [])).max_index
        ≡ some (tally (3 ∷ 8 ∷ 8 ∷ [])).max_weight)
    × ((tally (3 ∷ 8 ∷ 8 ∷ [])).is_tie
        ≡ ltb 1 (occurrences (tally (3 ∷ 8 ∷ 8 ∷ [])).max_weight (3 ∷ 8 ∷ 8 ∷ [])))
tally_plurality_example = tally_plurality (3 ∷ 8 ∷ 8 ∷ []) (omega arith)

-- The owner executes it after 48 hours.
abbrev pub call : Call
call = record { authority = 1; pool_key = 9; now = pos 300000; bump = 248 }

abbrev pub sold : Proposal
sold = record passed { executed = true }

pub execution_runs :
    governance_initiate_exit call 30 31 32 busy_pool config none passed
    ≡ ok (new_exit call 1 30 31 32 7, sold)
unfolding governance_initiate_exit check_timelock saturating_sub
execution_runs = refl

governance_exit_needs_example :
    (no_tracker ≡ none)
    × (busy_pool.is_paused ≡ false)
    × ((call.authority ≡ busy_pool.owner)
        ⊎ ((call.authority ≡ busy_pool.crank) × (config.auto_execute ≡ true)))
    × (passed.status ≡ 1)
    × (passed.winning_option_index ≡ 0)
    × (passed.proposal_type ≡ proposal_type_sell)
    × (passed.executed ≡ false)
    × DelayOver call.now passed
    × (sold ≡ record passed { executed = true })
    × (new_exit call 1 30 31 32 7 ≡ new_exit call busy_pool.owner 30 31 32 passed.id)
governance_exit_needs_example =
    governance_exit_needs call 30 31 32 busy_pool config none passed sold
      (new_exit call 1 30 31 32 7) execution_runs

governance_exit_once_example :
    governance_initiate_exit call 40 41 42 busy_pool config none sold
    ≢ ok (new_exit call 1 40 41 42 7, sold)
governance_exit_once_example =
    governance_exit_once call call 30 31 32 40 41 42 busy_pool busy_pool config config none none
      passed sold (new_exit call 1 30 31 32 7) (new_exit call 1 40 41 42 7, sold) execution_runs

abbrev treasury_proposal : Proposal
treasury_proposal = record passed { proposal_type = 2 }

treasury_runs :
    update_treasury_by_governance 1 (pos 300000) 50 busy_pool treasury_proposal
    ≡ ok (record busy_pool { treasury = 50 }, record treasury_proposal { executed = true })
unfolding update_treasury_by_governance check_timelock saturating_sub
treasury_runs = refl

governance_exit_allowed_example :
    governance_initiate_exit call 30 31 32 busy_pool config none passed
    ≡ ok (new_exit call busy_pool.owner 30 31 32 passed.id, record passed { executed = true })
governance_exit_allowed_example =
    governance_exit_allowed call 30 31 32 busy_pool config none passed refl refl (inl refl) refl
      refl refl refl (inr (unfold ◌+ℤ◌ in omega arith))

cast_vote_allowed_example :
    (p' : Proposal) × (r : VoteRecord) × (cast_vote 10
        (pos 2000)
        249
        0
        wallet
        (some staker)
        busy_pool
        none
        fresh_proposal
      ≡ ok (p', r))
    × (r.voter ≡ 10)
    × (r.option_index ≡ 0)
    × (r.weight ≡ wallet.amount + stake_of (some staker) * 2)
cast_vote_allowed_example =
    cast_vote_allowed 10 (pos 2000) 249 0 0 wallet (some staker) busy_pool fresh_proposal refl refl
      refl refl refl (omega arith) (omega arith) (omega arith) refl (omega arith) (omega arith)
      (omega arith)
