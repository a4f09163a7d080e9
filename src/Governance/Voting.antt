-- ===== src/Governance/Voting.antt =====
-- cast_vote.rs and close_vote_record.rs
pub mod Accounting
pub mod Acceptance
use dlmm_auto_sell_assets_in.Base.{
  ℕ, Option, none, some, Bool, true, false, not, ltb, ◌==◌, length, get_elem?, set,
}
use dlmm_auto_sell_assets_in.Base.Int.{ℤ, ltb_ℤ, leb_ℤ}
use dlmm_auto_sell_assets_in.Errors.{
  Result, ok, err, panic, unauthorized, invalid_mint, pool_paused, proposal_not_active,
  voting_period_not_started, voting_period_ended, invalid_option_index, no_voting_power,
  account_in_use, require, constraint, or_panic, ◌>>=◌, ◌>>◌,
}
use dlmm_auto_sell_assets_in.Checked.{checked_add, checked_mul, or_overflow}
use dlmm_auto_sell_assets_in.State.{Pubkey, StakingPool, StakerAccount, Proposal, VoteRecord}
use dlmm_auto_sell_assets_in.Runtime.{TokenAccount}

abbrev is_none : Option VoteRecord → Bool
is_none none = true
is_none (some r) = false

-- `match &ctx.accounts.staker_account { … }`, with the constraint on its owner.
unfoldable pub staked_amount_of : Pubkey → Option StakerAccount → Result ℕ
staked_amount_of voter none = ok 0
staked_amount_of voter (some staker) = do
  require (staker.owner == voter) unauthorized
  ok staker.staked_amount

-- Staked tokens count twice, those in the wallet once.
unfoldable pub vote_weight : ℕ → ℕ → Result ℕ
unfolding checked_mul checked_add
vote_weight wallet_balance staked_amount = do
  staked_weight ← or_overflow (checked_mul 64 staked_amount 2)
  or_overflow (checked_add 64 wallet_balance staked_weight)

-- The tallies with one more vote. `vote_counts[i]` panics where there is no such entry.
unfoldable pub add_vote : ℕ → ℕ → Proposal → Result Proposal
unfolding checked_add
add_vote option_index weight proposal = do
  count ← or_panic (get_elem? proposal.vote_counts option_index)
  grown ← or_overflow (checked_add 64 count weight)
  total ← or_overflow (checked_add 128 proposal.total_vote_weight weight)
  ok (record proposal {
    vote_counts = set proposal.vote_counts option_index grown;
    total_vote_weight = total;
  })

-- `cast_vote`; `account` is what stands at the address of the voter's record for this proposal.
unfoldable pub cast_vote :
    Pubkey
    → ℤ
    → ℕ
    → ℕ
    → TokenAccount
    → Option StakerAccount
    → StakingPool
    → Option VoteRecord
    → Proposal
    → Result (Proposal × VoteRecord)
cast_vote voter now bump option_index ata staker pool account proposal = do
  constraint (is_none account) account_in_use
  require (ata.mint == pool.brain_mint) invalid_mint
  require (ata.owner == voter) unauthorized
  staked_amount ← staked_amount_of voter staker
  require (not pool.is_paused) pool_paused
  require (proposal.status == 0) proposal_not_active
  require (leb_ℤ proposal.voting_starts now) voting_period_not_started
  require (ltb_ℤ now proposal.voting_ends) voting_period_ended
  require (ltb option_index (length proposal.options)) invalid_option_index
  weight ← vote_weight ata.amount staked_amount
  require (ltb 0 weight) no_voting_power
  proposal' ← add_vote option_index weight proposal
  ok (
    proposal',
    record {
      proposal_id = proposal.id;
      voter = voter;
      option_index = option_index;
      weight = weight;
      voted_at = now;
      bump = bump;
    },
  )

-- `close_vote_record`: only by the voter, and only after the proposal is closed.
unfoldable pub close_vote_record : Pubkey → Proposal → VoteRecord → Result (Option VoteRecord)
close_vote_record authority proposal vote_record = do
  require (vote_record.voter == authority) unauthorized
  require (not (proposal.status == 0)) proposal_not_active
  ok none
