-- ===== src/Governance/Proposals.antt =====
-- create_proposal.rs
pub mod Opening
use Prim.Native.String.{String, len}
use dlmm_auto_sell_assets_in.Base.{
  ℕ, List, Option, none, some, Bool, true, false, not, ltb, leb, ◌==◌, length, replicate,
}
use dlmm_auto_sell_assets_in.Base.Int.{ℤ, pos, ltb_ℤ, leb_ℤ, saturating_sub}
use dlmm_auto_sell_assets_in.Errors.{
  Result, ok, unauthorized, pool_paused, title_too_long, too_few_options, too_many_options,
  invalid_voting_period, account_in_use, require, constraint, ◌>>=◌, ◌>>◌,
}
use dlmm_auto_sell_assets_in.Checked.{checked_add, or_overflow}
use dlmm_auto_sell_assets_in.Constants.{
  max_title_len, min_proposal_options, max_proposal_options, min_voting_period_seconds,
}
use dlmm_auto_sell_assets_in.State.{Pubkey, StakingPool, GovernanceConfig, Proposal}

-- The arguments of the instruction.
pub record Draft : Type 0 where
  pub title : String
  pub description_uri : String
  pub proposal_type : ℕ
  pub options : List String
  pub voting_starts : ℤ
  pub voting_ends : ℤ

abbrev is_none : Option Proposal → Bool
is_none none = true
is_none (some p) = false

-- `create_proposal`; `account` is what stands at the address that `next_proposal_id` gives.
unfoldable pub create_proposal :
    Pubkey
    → Pubkey
    → ℤ
    → ℕ
    → Draft
    → Option Proposal
    → StakingPool
    → GovernanceConfig
    → Result (Proposal × GovernanceConfig)
unfolding saturating_sub checked_add
create_proposal owner pool_key now bump draft account pool config = do
  constraint (is_none account) account_in_use
  require (owner == pool.owner) unauthorized
  require (not pool.is_paused) pool_paused
  require (not (len draft.title == 0)) title_too_long
  require (leb (len draft.title) max_title_len) title_too_long
  require (leb min_proposal_options (length draft.options)) too_few_options
  require (leb (length draft.options) max_proposal_options) too_many_options
  require (ltb_ℤ draft.voting_starts draft.voting_ends) invalid_voting_period
  let voting_duration = saturating_sub draft.voting_ends draft.voting_starts
  require (leb_ℤ (pos min_voting_period_seconds) voting_duration) invalid_voting_period
  require (leb_ℤ now draft.voting_starts) invalid_voting_period
  next ← or_overflow (checked_add 64 config.next_proposal_id 1)
  ok (
    record {
      id = config.next_proposal_id;
      pool = pool_key;
      proposer = owner;
      title = draft.title;
      description_uri = draft.description_uri;
      proposal_type = draft.proposal_type;
      options = draft.options;
      vote_counts = replicate (length draft.options) 0;
      voting_starts = draft.voting_starts;
      voting_ends = draft.voting_ends;
      status = 0;
      total_vote_weight = 0;
      winning_option_index = 255;
      executed = false;
      passed_at = pos 0;
      quorum_snapshot = pool.total_weighted_stake;
      bump = bump;
    },
    record config { next_proposal_id = next },
  )
