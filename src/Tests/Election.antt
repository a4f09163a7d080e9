-- ===== src/Tests/Election.antt =====
-- A proposal with one vote on it, through its closing and its execution.
use dlmm_auto_sell_assets_in.Base.{
  ◌*◌, ◌/◌, ◌≡◌, ◌≤◌, ◌<◌, ◌⊎◌, ◌↔◌, arith, refl, some, none, [], ◌∷◌, length,
}
use dlmm_auto_sell_assets_in.Base.Int.{pos, ◌≤ℤ◌, saturating_sub}
use dlmm_auto_sell_assets_in.Base.Assoc.{sum_by}
use dlmm_auto_sell_assets_in.Errors.{ok}
use dlmm_auto_sell_assets_in.Exits.{new_exit}
use dlmm_auto_sell_assets_in.Governance.Voting.{
  staked_amount_of, vote_weight, add_vote, cast_vote, close_vote_record,
}
use dlmm_auto_sell_assets_in.Governance.Closing.{
  tally, required_votes, quorum_met, resolve, close_proposal,
}
use dlmm_auto_sell_assets_in.Governance.Execution.{check_timelock, governance_initiate_exit}
use dlmm_auto_sell_assets_in.Governance.Election.{
  Election, History, opened, vote, withdraw_record, close_election, execute_election, here, next,
  voted, withdrawn, executed,
}
use dlmm_auto_sell_assets_in.Governance.Election.Tally.{
  weight_of_vote, IsTallied, election-IsTallied,
}
use dlmm_auto_sell_assets_in.Governance.Election.Finality.{IsFinal, election-IsFinal}
use dlmm_auto_sell_assets_in.Governance.Election.Outcome.{FirstPreferred, election_result}
use dlmm_auto_sell_assets_in.Tests.{staker}
use dlmm_auto_sell_assets_in.Tests.Governance.{
  config, next_config, draft, fresh_proposal, busy_pool, wallet, one_vote, ballot, passed, call,
  sold, create_runs,
}

abbrev voting : Election
voting = record { proposal = one_vote; vote_records = (10, ballot) ∷ [] }

abbrev decided : Election
decided = record { proposal = passed; vote_records = (10, ballot) ∷ [] }

abbrev done : Election
done = record { proposal = sold; vote_records = [] }

vote_counts :
    vote 10 (pos 2000) 249 0 wallet (some staker) busy_pool (opened fresh_proposal) ≡ ok voting
unfolding vote cast_vote staked_amount_of vote_weight add_vote
vote_counts = refl

close_decides : close_election (pos 101000) busy_pool config voting ≡ ok decided
unfolding close_election close_proposal quorum_met required_votes tally resolve
close_decides = refl

withdrawal_runs : withdraw_record 10 decided ≡ ok (record decided { vote_records = [] })
unfolding withdraw_record close_vote_record
withdrawal_runs = refl

execution_marks :
    execute_election call 30 31 32 busy_pool config none (record decided { vote_records = [] })
    ≡ ok (new_exit call 1 30 31 32 7, done)
unfolding execute_election governance_initiate_exit check_timelock saturating_sub
execution_marks = refl

campaign : History (opened fresh_proposal) voting
campaign = next here (voted 10 (pos 2000) 249 0 wallet (some staker) busy_pool vote_counts)

aftermath : History decided done
aftermath =
    next (next here (withdrawn 10 withdrawal_runs))
      (executed call 30 31 32 busy_pool config none execution_marks)

election-IsTallied_example : IsTallied fresh_proposal voting
election-IsTallied_example =
    election-IsTallied 1 9 (pos 500) 250 draft none busy_pool config next_config fresh_proposal
      create_runs campaign refl

election-IsFinal_example : IsFinal decided done
election-IsFinal_example = election-IsFinal (λ e. omega (arith, e)) aftermath

election_result_example :
    ((decided.proposal.status ≡ 1) ↔ (
      (0 < sum_by weight_of_vote voting.vote_records)
      × (busy_pool.total_weighted_stake * config.min_quorum_bps / 10000
          ≤ sum_by weight_of_vote voting.vote_records)
      × FirstPreferred (length draft.options) voting.vote_records))
    × ((decided.proposal.status ≡ 1) ⊎ (decided.proposal.status ≡ 2))
    × (fresh_proposal.voting_ends ≤ℤ pos 101000)
election_result_example =
    election_result 1 9 (pos 500) 250 draft none busy_pool config next_config fresh_proposal voting
      decided (pos 101000) busy_pool config create_runs campaign close_decides (omega arith)
