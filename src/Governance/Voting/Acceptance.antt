-- ===== src/Governance/Voting/Acceptance.antt =====
-- When cast_vote.rs accepts a vote.
use dlmm_auto_sell_assets_in.Base.{
  ℕ, ◌+◌, ◌*◌, ◌^◌, ◌≡◌, ◌<◌, arith, refl, Option, none, some, false, length, get_elem?, set,
}
use dlmm_auto_sell_assets_in.Base.Int.{ℤ, ◌≤ℤ◌, ◌<ℤ◌}
use dlmm_auto_sell_assets_in.Errors.{ok}
use dlmm_auto_sell_assets_in.Checked.{checked_add, checked_mul, try_from}
use dlmm_auto_sell_assets_in.State.{Pubkey, StakingPool, StakerAccount, Proposal, VoteRecord}
use dlmm_auto_sell_assets_in.Runtime.{TokenAccount}
use dlmm_auto_sell_assets_in.Governance.Voting.{staked_amount_of, vote_weight, add_vote, cast_vote}
use dlmm_auto_sell_assets_in.Governance.Voting.Accounting.{stake_of}

-- The staker account, if one is given, is the voter's own.
abbrev pub IsOwn : Pubkey → Option StakerAccount → Type 0
IsOwn voter none = Unit
IsOwn voter (some s) = s.owner ≡ voter

staked_amount_of-ok :
    (voter : Pubkey) (staker : Option StakerAccount)
    → IsOwn voter staker
    → staked_amount_of voter staker ≡ ok (stake_of staker)
unfolding staked_amount_of
staked_amount_of-ok voter none own = refl
staked_amount_of-ok voter (some s) own = ground arith

vote_weight-ok :
    (wallet staked : ℕ)
    → wallet + staked * 2 < 2 ^ 64
    → vote_weight wallet staked ≡ ok (wallet + staked * 2)
unfolding vote_weight checked_mul checked_add try_from
vote_weight-ok wallet staked h = ground arith

add_vote-ok :
    (i weight count : ℕ) (p : Proposal)
    → get_elem? p.vote_counts i ≡ some count
    → count + weight < 2 ^ 64
    → p.total_vote_weight + weight < 2 ^ 128
    → add_vote i weight p
      ≡ ok (record p {
        vote_counts = set p.vote_counts i (count + weight);
        total_vote_weight = p.total_vote_weight + weight;
      })
unfolding add_vote checked_add try_from
add_vote-ok i weight count p at fits total = ground arith

-- A first vote is accepted: while the pool runs and the proposal's window is open, for an option that has
-- a count, from a token account of the voter and, if any, the voter's own staker account, with a weight
-- that is not zero and sums that fit their words; it is recorded with that weight.
pub cast_vote_allowed :
    (voter : Pubkey) (now : ℤ) (bump i count : ℕ) (ata : TokenAccount)
    (staker : Option StakerAccount) (pool : StakingPool) (p : Proposal)
    → ata.mint ≡ pool.brain_mint
    → ata.owner ≡ voter
    → IsOwn voter staker
    → pool.is_paused ≡ false
    → p.status ≡ 0
    → p.voting_starts ≤ℤ now
    → now <ℤ p.voting_ends
    → i < length p.options
    → get_elem? p.vote_counts i ≡ some count
    → 0 < ata.amount + stake_of staker * 2
    → count + (ata.amount + stake_of staker * 2) < 2 ^ 64
    → p.total_vote_weight + (ata.amount + stake_of staker * 2) < 2 ^ 128
    → (p' : Proposal) × (r : VoteRecord) × (cast_vote voter now bump i ata staker pool none p
        ≡ ok (p', r))
      × (r.voter ≡ voter)
      × (r.option_index ≡ i)
      × (r.weight ≡ ata.amount + stake_of staker * 2)
unfolding cast_vote
cast_vote_allowed voter now bump i count ata staker pool p mint owner own runs active begun
      before_end valid at some_weight fits total =
    let se = staked_amount_of-ok voter staker own in
    let we = vote_weight-ok ata.amount (stake_of staker) (omega arith) in
    let ae = add_vote-ok i (ata.amount + stake_of staker * 2) count p at fits total in
    let weight = ata.amount + stake_of staker * 2 in
    (
      record p {
        vote_counts = set p.vote_counts i (count + weight);
        total_vote_weight = p.total_vote_weight + weight;
      },
      record {
        proposal_id = p.id;
        voter = voter;
        option_index = i;
        weight = weight;
        voted_at = now;
        bump = bump;
      },
      ground arith,
      refl,
      refl,
      refl,
    )
