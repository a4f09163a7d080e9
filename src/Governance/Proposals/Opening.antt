-- ===== src/Governance/Proposals/Opening.antt =====
-- What create_proposal.rs accepts, and the proposal that it opens.
use Prim.Native.String.{len}
use dlmm_auto_sell_assets_in.Base.{
  ℕ, ◌+◌, ◌≡◌, ◌≤◌, ◌<◌, arith, sym, ◌∙◌, Option, none, true, false, length, replicate,
  length-replicate, sum-replicate,
}
use dlmm_auto_sell_assets_in.Base.Int.{
  ℤ, pos, ◌≤ℤ◌, ◌+ℤ◌, leb_ℤ, saturating_sub, leb-saturating_sub, leb_ℤ→≤ℤ,
}
use dlmm_auto_sell_assets_in.Errors.{ok}
use dlmm_auto_sell_assets_in.Constants.{min_voting_period_seconds}
use dlmm_auto_sell_assets_in.State.{Pubkey, StakingPool, GovernanceConfig, Proposal}
use dlmm_auto_sell_assets_in.Governance.Proposals.{Draft, create_proposal}
use dlmm_auto_sell_assets_in.Governance.Closing.Outcome.{IsCounted}

-- What passed the checks of a draft.
accepted_draft :
    (owner pool_key : Pubkey) (now : ℤ) (bump : ℕ) (draft : Draft) (account : Option Proposal)
    (pool : StakingPool) (config config' : GovernanceConfig) (p : Proposal)
    → create_proposal owner pool_key now bump draft account pool config ≡ ok (p, config')
    → (leb_ℤ (pos min_voting_period_seconds) (saturating_sub draft.voting_ends draft.voting_starts)
        ≡ true)
      × (p.voting_starts ≡ draft.voting_starts)
      × (p.voting_ends ≡ draft.voting_ends)
      × (p.vote_counts ≡ replicate (length draft.options) 0)
      × (p.options ≡ draft.options)
      × (p.title ≡ draft.title)
unfolding create_proposal
accepted_draft owner pool_key now bump draft account pool config config' p h =
    (ground arith, ground arith, ground arith, ground arith, ground arith, ground arith)

-- A proposal that is created: no account stands at its address, and its proposer owns
-- a pool that runs; the title has 1 to 64 bytes and there
-- are two to five options, each with its own count of 0; voting starts now or later and lasts a day at
-- least; it is active, its total is the sum of its counts, its quorum is taken of the weight staked now,
-- and the next proposal will have the next number.
pub created_proposal :
    (owner pool_key : Pubkey) (now : ℤ) (bump : ℕ) (draft : Draft) (account : Option Proposal)
    (pool : StakingPool) (config config' : GovernanceConfig) (p : Proposal)
    → create_proposal owner pool_key now bump draft account pool config ≡ ok (p, config')
    → (account ≡ none)
      × (owner ≡ pool.owner)
      × (pool.is_paused ≡ false)
      × (0 < len p.title)
      × (len p.title ≤ 64)
      × (2 ≤ length p.options)
      × (length p.options ≤ 5)
      × (length p.vote_counts ≡ length p.options)
      × (now ≤ℤ p.voting_starts)
      × (p.voting_starts +ℤ pos min_voting_period_seconds ≤ℤ p.voting_ends)
      × (p.status ≡ 0)
      × IsCounted p
      × (p.total_vote_weight ≡ 0)
      × (p.quorum_snapshot ≡ pool.total_weighted_stake)
      × (p.id ≡ config.next_proposal_id)
      × (config' ≡ record config { next_proposal_id = p.id + 1 })
unfolding create_proposal
created_proposal owner pool_key now bump draft account pool config config' p h =
    let (long, starts, ends, counts, options, title) =
      accepted_draft owner pool_key now bump draft account pool config config' p h in
    let empty = sum-replicate (length draft.options) in
    let as_many = length-replicate {A = ℕ} (length draft.options) 0 in
    let total : p.total_vote_weight ≡ 0 = ground arith in
    (
      ground arith,
      ground arith,
      ground arith,
      ground arith,
      ground arith,
      ground arith,
      ground arith,
      rw (counts, options) as_many,
      ground arith,
      rw (starts, ends)
          (leb_ℤ→≤ℤ (draft.voting_starts +ℤ pos min_voting_period_seconds) draft.voting_ends (
            sym (
              leb-saturating_sub min_voting_period_seconds draft.voting_ends draft.voting_starts
                (omega arith))
            ∙ long)),
      ground arith,
      rw (counts, total) empty,
      total,
      ground arith,
      ground arith,
      ground arith,
    )
