-- ===== src/Governance/Closing.antt =====
-- close_proposal.rs: the tally of the votes and the quorum.
pub mod Plurality
pub mod Outcome
use dlmm_auto_sell_assets_in.Base.{
  ℕ, ◌+◌, ◌*◌, ◌%◌, List, [], ◌∷◌, Bool, true, false, not, ◌&&◌, ltb, ◌==◌, if◌then◌else◌, length,
  is_empty,
}
use dlmm_auto_sell_assets_in.Base.Int.{ℤ, pos, leb_ℤ}
use dlmm_auto_sell_assets_in.Errors.{
  Result, ok, pool_paused, proposal_not_active, voting_period_not_ended, invalid_proposal_state,
  require, ◌>>=◌, ◌>>◌,
}
use dlmm_auto_sell_assets_in.Checked.{checked_mul, checked_div, unwrap_or}
use dlmm_auto_sell_assets_in.State.{StakingPool, GovernanceConfig, Proposal}

-- The variables of the loop over `vote_counts.iter().enumerate()`.
pub record Tally : Type 0 where
  pub max_weight : ℕ
  pub max_index : ℕ
  pub is_tie : Bool

unfoldable pub tally_step : ℕ → ℕ → Tally → Tally
tally_step i count t =
    if ltb t.max_weight count
    then record { max_weight = count; max_index = i; is_tie = false }
    else if count == t.max_weight && ltb 0 count
    then record t { is_tie = true }
    else t

unfoldable pub tally_from : ℕ → List ℕ → Tally → Tally
tally_from i [] t = t
tally_from i (count ∷ counts) t = tally_from (i + 1) counts (tally_step i count t)

unfoldable pub tally : List ℕ → Tally
unfolding tally_from tally_step
tally counts = tally_from 0 counts (record { max_weight = 0; max_index = 0; is_tie = false })

-- The votes that the quorum asks for; the source turns an overflow into 0.
unfoldable pub required_votes : ℕ → ℕ → ℕ
unfolding checked_mul checked_div
required_votes quorum_base quorum_bps =
    unwrap_or (checked_div (unwrap_or (checked_mul 128 quorum_base quorum_bps) 0) 10000) 0

unfoldable pub quorum_met : GovernanceConfig → Proposal → Bool
quorum_met config proposal =
    if ltb 0 config.min_quorum_bps
    then not (
        ltb proposal.total_vote_weight
          (required_votes proposal.quorum_snapshot config.min_quorum_bps))
    else true

-- No votes, or no quorum.
abbrev pub reject_unresolved : Proposal → Proposal
reject_unresolved proposal = record proposal { status = 2; winning_option_index = 255 }

-- The branches after the loop.
unfoldable pub resolve : ℤ → Tally → Proposal → Proposal
resolve now t proposal =
    if t.is_tie
    then record proposal { status = 2; winning_option_index = 255; passed_at = pos 0 }
    else if t.max_index == 0
    then record proposal { winning_option_index = t.max_index % 256; status = 1; passed_at = now }
    else record proposal { winning_option_index = t.max_index % 256; status = 2; passed_at = pos 0 }

-- `close_proposal`
unfoldable pub close_proposal : ℤ → StakingPool → GovernanceConfig → Proposal → Result Proposal
close_proposal now pool config proposal = do
  require (proposal.status == 0) proposal_not_active
  require (leb_ℤ proposal.voting_ends now) voting_period_not_ended
  require (not (is_empty proposal.vote_counts)) invalid_proposal_state
  require (length proposal.vote_counts == length proposal.options) invalid_proposal_state
  require (not pool.is_paused) pool_paused
  ok (
      if proposal.total_vote_weight == 0
      then reject_unresolved proposal
      else if quorum_met config proposal
      then resolve now (tally proposal.vote_counts) proposal
      else reject_unresolved proposal)
