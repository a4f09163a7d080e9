-- ===== src/Governance/Voting/Accounting.antt =====
-- The tallies of a proposal against the votes that were cast.
use dlmm_auto_sell_assets_in.Base.{
  ℕ, ◌+◌, ◌*◌, ◌≡◌, ◌<◌, arith, sym, ap, ◌∙◌, ltb→<, subst, Option, none, some, false, not, ltb,
  ◌==◌, length, get_elem?, set, sum-set,
}
use dlmm_auto_sell_assets_in.Base.Int.{ℤ, ◌≤ℤ◌, ◌<ℤ◌, ltb_ℤ, leb_ℤ}
use dlmm_auto_sell_assets_in.Errors.{
  ok, or_panic, >>=-eq-ok, constraint-eq-ok, require-eq-ok, account_in_use, invalid_mint,
  unauthorized, pool_paused, proposal_not_active, voting_period_not_started, voting_period_ended,
  invalid_option_index, no_voting_power,
}
use dlmm_auto_sell_assets_in.Checked.{checked_add, checked_mul, try_from}
use dlmm_auto_sell_assets_in.State.{Pubkey, StakingPool, StakerAccount, Proposal, VoteRecord}
use dlmm_auto_sell_assets_in.Runtime.{TokenAccount}
use dlmm_auto_sell_assets_in.Governance.Closing.Outcome.{IsCounted}
use dlmm_auto_sell_assets_in.Governance.Voting.{
  is_none, staked_amount_of, vote_weight, add_vote, cast_vote,
}

-- The stake that counts: that of the staker account, if one is given.
abbrev pub stake_of : Option StakerAccount → ℕ
stake_of none = 0
stake_of (some s) = s.staked_amount

add_vote-eq :
    (i weight : ℕ) (p p' : Proposal)
    → add_vote i weight p ≡ ok p'
    → (count : ℕ) × (get_elem? p.vote_counts i ≡ some count)
      × (p' ≡ record p {
        vote_counts = set p.vote_counts i (count + weight);
        total_vote_weight = p.total_vote_weight + weight;
      })
unfolding add_vote
add_vote-eq i weight p p' h =
    let (count, ce, h1) = >>=-eq-ok (or_panic (get_elem? p.vote_counts i)) _ h in
    (count, ground arith, ground arith)

staked_amount_of-eq :
    (voter : Pubkey) (staker : Option StakerAccount) (n : ℕ)
    → staked_amount_of voter staker ≡ ok n
    → n ≡ stake_of staker
unfolding staked_amount_of
staked_amount_of-eq voter none n h = ground arith
staked_amount_of-eq voter (some s) n h = ground arith

vote_weight-eq :
    (wallet staked weight : ℕ)
    → vote_weight wallet staked ≡ ok weight
    → weight ≡ wallet + staked * 2
unfolding vote_weight checked_mul checked_add try_from
vote_weight-eq wallet staked weight h = ground arith

-- The checks that a vote passed.
pub cast_vote_checks :
    (voter : Pubkey) (now : ℤ) (bump i : ℕ) (ata : TokenAccount) (staker : Option StakerAccount)
    (pool : StakingPool) (account : Option VoteRecord) (p p' : Proposal) (r : VoteRecord)
    → cast_vote voter now bump i ata staker pool account p ≡ ok (p', r)
    → (account ≡ none)
      × (pool.is_paused ≡ false)
      × (p.status ≡ 0)
      × (p.voting_starts ≤ℤ now)
      × (now <ℤ p.voting_ends)
      × (i < length p.options)
unfolding cast_vote
cast_vote_checks voter now bump i ata staker pool account p p' r h =
    (ground arith, ground arith, ground arith, ground arith, ground arith, ground arith)

-- The weight that it computed and where it put it.
cast_vote_weight :
    (voter : Pubkey) (now : ℤ) (bump i : ℕ) (ata : TokenAccount) (staker : Option StakerAccount)
    (pool : StakingPool) (account : Option VoteRecord) (p p' : Proposal) (r : VoteRecord)
    → cast_vote voter now bump i ata staker pool account p ≡ ok (p', r)
    → (staked : ℕ) × (staked_amount_of voter staker ≡ ok staked)
      × (vote_weight ata.amount staked ≡ ok r.weight)
      × (0 < r.weight)
      × (add_vote i r.weight p ≡ ok p')
unfolding cast_vote
cast_vote_weight voter now bump i ata staker pool account p p' r h =
    let (_, h1) = constraint-eq-ok (is_none account) account_in_use _ h in
    let (_, h2) = require-eq-ok (ata.mint == pool.brain_mint) invalid_mint _ h1 in
    let (_, h3) = require-eq-ok (ata.owner == voter) unauthorized _ h2 in
    let (staked, se, h4) = >>=-eq-ok (staked_amount_of voter staker) _ h3 in
    let (_, h5) = require-eq-ok (not pool.is_paused) pool_paused _ h4 in
    let (_, h6) = require-eq-ok (p.status == 0) proposal_not_active _ h5 in
    let (_, h7) = require-eq-ok (leb_ℤ p.voting_starts now) voting_period_not_started _ h6 in
    let (_, h8) = require-eq-ok (ltb_ℤ now p.voting_ends) voting_period_ended _ h7 in
    let (_, h9) = require-eq-ok (ltb i (length p.options)) invalid_option_index _ h8 in
    let (weight, we, h10) = >>=-eq-ok (vote_weight ata.amount staked) _ h9 in
    let (some_weight, h11) = require-eq-ok (ltb 0 weight) no_voting_power _ h10 in
    let (grown, ae, h12) = >>=-eq-ok (add_vote i weight p) _ h11 in
    let same : r.weight ≡ weight = ground arith in
    let last : p' ≡ grown = ground arith in
    (
      staked,
      se,
      we ∙ ap ok (sym same),
      omega (arith, same, ltb→< 0 weight some_weight),
      ap (λ w. add_vote i w p) same ∙ ae ∙ ap ok (sym last),
    )

-- A vote that is cast: it is the voter's first on this proposal, the pool runs, the proposal is
-- active and its window open, and the option exists. Its weight is the wallet's balance and twice the
-- stake, and is not zero; it is added to the chosen option and to the total, which stays the sum of
-- the counts, and nothing else of the proposal changes.
pub cast_vote_lem :
    (voter : Pubkey) (now : ℤ) (bump i : ℕ) (ata : TokenAccount) (staker : Option StakerAccount)
    (pool : StakingPool) (account : Option VoteRecord) (p p' : Proposal) (r : VoteRecord)
    → cast_vote voter now bump i ata staker pool account p ≡ ok (p', r)
    → IsCounted p
    → (account ≡ none)
      × (pool.is_paused ≡ false)
      × (p.status ≡ 0)
      × (p.voting_starts ≤ℤ now)
      × (now <ℤ p.voting_ends)
      × (i < length p.options)
      × (r.weight ≡ ata.amount + stake_of staker * 2)
      × (0 < r.weight)
      × (p'.total_vote_weight ≡ p.total_vote_weight + r.weight)
      × IsCounted p'
      × ((count : ℕ) × (get_elem? p.vote_counts i ≡ some count)
          × (p' ≡ record p {
            vote_counts = set p.vote_counts i (count + r.weight);
            total_vote_weight = p.total_vote_weight + r.weight;
          }))
cast_vote_lem voter now bump i ata staker pool account p p' r h counted =
    let (vacant, runs, active, begun, before_end, valid) =
      cast_vote_checks voter now bump i ata staker pool account p p' r h in
    let (staked, se, we, some_weight, added) =
      cast_vote_weight voter now bump i ata staker pool account p p' r h in
    let (count, ce, e) = add_vote-eq i r.weight p p' added in
    let w = vote_weight-eq ata.amount staked r.weight we in
    let s = staked_amount_of-eq voter staker staked se in
    let grown = sum-set p.vote_counts i count (count + r.weight) ce in
    (
      vacant,
      runs,
      active,
      begun,
      before_end,
      valid,
      ground arith,
      some_weight,
      ground arith,
      subst (λ q. IsCounted q) (sym e) (omega arith),
      (count, ce, e),
    )
