-- ===== src/Governance/Election/Outcome.antt =====
-- What the closing of a proposal says about the votes that were cast.
use dlmm_auto_sell_assets_in.Base.{
  ℕ, zero, suc, ◌*◌, ◌/◌, ◌^◌, ◌≡◌, ◌↔◌, ◌⊎◌, ◌≤◌, ◌<◌, arith, refl, ap, ◌∙◌, List, [], ◌∷◌, Option,
  some, length, get_elem?,
}
use dlmm_auto_sell_assets_in.Base.Int.{ℤ, ◌≤ℤ◌}
use dlmm_auto_sell_assets_in.Base.Assoc.{Assoc, sum_by}
use dlmm_auto_sell_assets_in.Errors.{ok}
use dlmm_auto_sell_assets_in.State.{Pubkey, StakingPool, GovernanceConfig, Proposal, VoteRecord}
use dlmm_auto_sell_assets_in.Governance.Proposals.{Draft, create_proposal}
use dlmm_auto_sell_assets_in.Governance.Proposals.Opening.{created_proposal}
use dlmm_auto_sell_assets_in.Governance.Closing.Outcome.{
  AllLt, FirstWins, get-below, close_proposal_passes,
}
use dlmm_auto_sell_assets_in.Governance.Election.{Election, History, opened, close_election}
use dlmm_auto_sell_assets_in.Governance.Election.Events.{close_election-eq}
use dlmm_auto_sell_assets_in.Governance.Election.Tally.{
  weight_of_vote, weight_for, election-IsTallied,
}

-- The first of `n` options has more weight in the records than each other one.
abbrev pub FirstPreferred : ℕ → Assoc VoteRecord → Type 0
FirstPreferred n votes =
    (j : ℕ) → 0 < j → j < n → sum_by (weight_for j) votes < sum_by (weight_for 0) votes

get-total : {A : Type 0} (xs : List A) (j : ℕ) → j < length xs → (a : A) × (get_elem? xs j ≡ some a)
get-total [] j h = absurd (omega arith)
get-total (x ∷ xs) zero h = (x, refl)
get-total (x ∷ xs) (suc j) h = get-total xs j (omega arith)

AllLt-of : (w : ℕ) (xs : List ℕ) → ((j c : ℕ) → get_elem? xs j ≡ some c → c < w) → AllLt w xs
AllLt-of w [] below = tt
AllLt-of w (x ∷ xs) below = (below 0 x refl, AllLt-of w xs (λ j c e. below (suc j) c e))

get-length : (xs : List ℕ) (j c : ℕ) → get_elem? xs j ≡ some c → j < length xs
get-length [] j c e = ground arith
get-length (x ∷ xs) zero c e = omega arith
get-length (x ∷ xs) (suc j) c e = omega (arith, get-length xs j c e)

wins-preferred :
    (c : ℕ) (cs : List ℕ) (votes : Assoc VoteRecord)
    → ((i count : ℕ) → get_elem? (c ∷ cs) i ≡ some count → count ≡ sum_by (weight_for i) votes)
    → AllLt c cs
    → FirstPreferred (length (c ∷ cs)) votes
wins-preferred c cs votes agree wins zero positive h = absurd (omega arith)
wins-preferred c cs votes agree wins (suc i) positive h =
    let (x, e) = get-total cs i (omega arith) in
    omega (arith, agree 0 c refl, agree (suc i) x e, get-below c x i cs wins e)

-- The counts and the records agree on whether the first option wins.
FirstWins-iff :
    (counts : List ℕ) (votes : Assoc VoteRecord)
    → 0 < length counts
    → ((i count : ℕ) → get_elem? counts i ≡ some count → count ≡ sum_by (weight_for i) votes)
    → FirstWins counts ↔ FirstPreferred (length counts) votes
FirstWins-iff [] votes some_option agree = absurd (omega arith)
FirstWins-iff (c ∷ cs) votes some_option agree = (
  wins-preferred c cs votes agree,
  λ preferred. AllLt-of c cs λ j x e. omega (
    arith,
    agree 0 c refl,
    agree (suc j) x e,
    preferred (suc j) (omega arith) (omega (arith, get-length cs j x e)),
  ),
)

-- A proposal, from its creation and through whatever votes, until its closing: it passes exactly when some vote was cast, the
-- weights of all vote records reach the quorum, taken of the pool's weighted stake at the creation, and
-- the weights of the records for the first option exceed those for each other option; otherwise it is rejected. The
-- product for the quorum is assumed to fit 128 bits.
pub election_result :
    (owner pool_key : Pubkey) (now : ℤ) (bump : ℕ) (draft : Draft) (account : Option Proposal)
    (pool : StakingPool) (config config' : GovernanceConfig) (p : Proposal) (e e' : Election)
    (later : ℤ) (pool' : StakingPool) (settings : GovernanceConfig)
    → create_proposal owner pool_key now bump draft account pool config ≡ ok (p, config')
    → History (opened p) e
    → close_election later pool' settings e ≡ ok e'
    → pool.total_weighted_stake * settings.min_quorum_bps < 2 ^ 128
    → ((e'.proposal.status ≡ 1) ↔ (
        (0 < sum_by weight_of_vote e.vote_records)
        × (pool.total_weighted_stake * settings.min_quorum_bps / 10000
            ≤ sum_by weight_of_vote e.vote_records)
        × FirstPreferred (length draft.options) e.vote_records))
      × ((e'.proposal.status ≡ 1) ⊎ (e'.proposal.status ≡ 2))
      × (p.voting_ends ≤ℤ later)
unfolding create_proposal
election_result owner pool_key now bump draft account pool config config' p e e' later pool'
      settings created history closing fits =
    let (active, ce, _, _) = close_election-eq later pool' settings e e' closing in
    let t =
      election-IsTallied owner pool_key now bump draft account pool config config' p created history
        active in
    let (_, _, _, _, _, two, _, _, _, _, _, _, _, snapshot, _, _) =
      created_proposal owner pool_key now bump draft account pool config config' p created in
    let options : p.options ≡ draft.options = ground arith in
    let base : e.proposal.quorum_snapshot ≡ pool.total_weighted_stake = ground (arith, t.frame) in
    let ends : e.proposal.voting_ends ≡ p.voting_ends = ground (arith, t.frame) in
    let (_, over, passes, status) =
      close_proposal_passes later pool' settings e.proposal e'.proposal t.counted (rw base fits)
        ce in
    let size : length e.proposal.vote_counts ≡ length draft.options = t.sized ∙ ap length options in
    let first =
      FirstWins-iff e.proposal.vote_counts e.vote_records (omega (arith, t.sized, two)) t.counts in
    (
      rw (← base, ← t.total, ← size)
          (
            λ one. let (voted, met, wins) = passes.0 one in (voted, met, first.0 wins),
            λ w. passes.1 (w.0, w.1, first.1 w.2),
          ),
      status,
      rw (← ends) over,
    )
