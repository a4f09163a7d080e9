-- ===== src/Governance/Election/Tally.antt =====
-- While a proposal is active its counts are what the vote records say.
use dlmm_auto_sell_assets_in.Base.{
  ℕ, zero, suc, ◌+◌, ◌≡◌, ◌⊎◌, ◌<◌, inl, inr, arith, refl, sym, ap, subst, ◌∙◌, List, [], ◌∷◌,
  Option, some, none, true, false, ◌==◌, if◌then◌else◌, length, get_elem?, set, replicate,
  length-set, ==→≡,
}
use dlmm_auto_sell_assets_in.Base.Int.{ℤ, ◌≤ℤ◌, ◌<ℤ◌}
use dlmm_auto_sell_assets_in.Base.Assoc.{
  Assoc, lookup, insert, sum_by, Each, Each-insert, sum_by-insert_new,
}
use dlmm_auto_sell_assets_in.Errors.{ok, >>=-eq-ok, ok-injective}
use dlmm_auto_sell_assets_in.State.{
  Pubkey, StakingPool, StakerAccount, GovernanceConfig, Proposal, VoteRecord,
}
use dlmm_auto_sell_assets_in.Runtime.{TokenAccount}
use dlmm_auto_sell_assets_in.Governance.Proposals.{Draft, create_proposal}
use dlmm_auto_sell_assets_in.Governance.Proposals.Opening.{created_proposal}
use dlmm_auto_sell_assets_in.Governance.Closing.Outcome.{IsCounted}
use dlmm_auto_sell_assets_in.Governance.Voting.{cast_vote}
use dlmm_auto_sell_assets_in.Governance.Voting.Accounting.{cast_vote_lem}
use dlmm_auto_sell_assets_in.Governance.Election.Events.{
  vote_active, withdrawn-eq, close_election-eq, execute_election-eq,
}
use dlmm_auto_sell_assets_in.Governance.Election.{
  Election, vote, Event, voted, withdrawn, closed, executed, History, here, next, opened,
}

abbrev pub weight_of_vote : VoteRecord → ℕ
weight_of_vote r = r.weight

-- What a record adds to an option's count.
abbrev pub weight_for : ℕ → VoteRecord → ℕ
weight_for i r = if r.option_index == i then r.weight else 0

-- A record that the proposal accepted: for one of its options, in its window, and with some weight.
pub record IsVote (p : Proposal) (r : VoteRecord) : Type 0 where
  pub proposal_id : r.proposal_id ≡ p.id
  pub option : r.option_index < length p.options
  pub weight : 0 < r.weight
  pub begun : p.voting_starts ≤ℤ r.voted_at
  pub in_time : r.voted_at <ℤ p.voting_ends

-- What an active proposal keeps since its creation as `p`, and how its counts follow from the records.
pub record IsTallied (p : Proposal) (e : Election) : Type 0 where
  pub frame : e.proposal ≡ record p {
    vote_counts = e.proposal.vote_counts;
    total_vote_weight = e.proposal.total_vote_weight;
  }
  pub sized : length e.proposal.vote_counts ≡ length p.options
  pub votes : Each (IsVote p) e.vote_records
  pub total : e.proposal.total_vote_weight ≡ sum_by weight_of_vote e.vote_records
  pub counted : IsCounted e.proposal
  pub counts :
      (i count : ℕ)
      → get_elem? e.proposal.vote_counts i ≡ some count
      → count ≡ sum_by (weight_for i) e.vote_records

get-set :
    {A : Type 0} (xs : List A) (i j : ℕ) (v c : A)
    → get_elem? (set xs i v) j ≡ some c
    → ((j == i ≡ true) × (c ≡ v)) ⊎ ((j == i ≡ false) × (get_elem? xs j ≡ some c))
get-set [] i j v c h = ground arith
get-set (x ∷ xs) zero zero v c h = inl (refl, ground arith)
get-set (x ∷ xs) zero (suc j) v c h = inr (ground arith, h)
get-set (x ∷ xs) (suc i) zero v c h = inr (ground arith, h)
get-set (x ∷ xs) (suc i) (suc j) v c h = ground (arith, get-set xs i j v c h)

get-replicate : (n i c : ℕ) → get_elem? (replicate n 0) i ≡ some c → c ≡ 0
get-replicate zero i c h = ground arith
get-replicate (suc n) zero c h = ground arith
get-replicate (suc n) (suc i) c h = get-replicate n i c h

-- The record that a vote leaves.
cast_vote_record :
    (voter : Pubkey) (now : ℤ) (bump i : ℕ) (ata : TokenAccount) (staker : Option StakerAccount)
    (pool : StakingPool) (account : Option VoteRecord) (p p' : Proposal) (r : VoteRecord)
    → cast_vote voter now bump i ata staker pool account p ≡ ok (p', r)
    → (r.proposal_id ≡ p.id) × (r.option_index ≡ i) × (r.voted_at ≡ now) × (r.voter ≡ voter)
unfolding cast_vote
cast_vote_record voter now bump i ata staker pool account p p' r h =
    (ground arith, ground arith, ground arith, ground arith)

-- One more record, and one more vote in the counts.
voted-IsTallied :
    (voter i count : ℕ) (r : VoteRecord) (p q q' : Proposal) (m : Assoc VoteRecord)
    → IsTallied p (record { proposal = q; vote_records = m })
    → lookup voter m ≡ none
    → get_elem? q.vote_counts i ≡ some count
    → r.option_index ≡ i
    → IsVote p r
    → IsCounted q'
    → q' ≡ record q {
      vote_counts = set q.vote_counts i (count + r.weight);
      total_vote_weight = q.total_vote_weight + r.weight;
    }
    → IsTallied p (record { proposal = q'; vote_records = insert voter r m })
voted-IsTallied voter i count r p q q' m t vacant at chosen valid counted e =
    let same_counts : q'.vote_counts ≡ set q.vote_counts i (count + r.weight) = ground arith in
    record {
      frame = ground (arith, t.frame);
      sized = ap length same_counts ∙ length-set q.vote_counts i (count + r.weight) ∙ t.sized;
      votes = Each-insert (IsVote p) voter r m valid t.votes;
      total = ground (arith, sum_by-insert_new weight_of_vote voter r m vacant, t.total);
      counted = counted;
      counts = λ j c h.
          let new = sum_by-insert_new (weight_for j) voter r m vacant in
          elim (get-set q.vote_counts i j (count + r.weight) c
            (subst (λ xs. get_elem? xs j ≡ some c) same_counts h)) [
              | inl (same, ce) ↦
                  let ji : j ≡ i = ==→≡ j i same in
                  let before =
                    t.counts j count
                      (subst (λ k. get_elem? q.vote_counts k ≡ some count) (sym ji) at) in
                  let w : weight_for j r ≡ r.weight = ground arith in omega arith
              | inr (other, unchanged) ↦
                  let before = t.counts j c unchanged in
                  let w : weight_for j r ≡ 0 = ground arith in omega arith
            ];
    }

vote-IsTallied :
    (voter : Pubkey) (now : ℤ) (bump i : ℕ) (ata : TokenAccount) (staker : Option StakerAccount)
    (pool : StakingPool) (p : Proposal) (e e' : Election)
    → vote voter now bump i ata staker pool e ≡ ok e'
    → IsTallied p e
    → IsTallied p e'
unfolding vote
vote-IsTallied voter now bump i ata staker pool p e e' h t =
    let account = lookup voter e.vote_records in
    let (r, ce, h1) =
      >>=-eq-ok (cast_vote voter now bump i ata staker pool account e.proposal) _ h in
    let (vacant, _, _, begun, in_time, valid, _, weight, _, counted, has_count) =
      cast_vote_lem voter now bump i ata staker pool account e.proposal r.0 r.1 ce t.counted in
    let (count, at, pe) = has_count in
    let (same_id, chosen, at_time, _) =
      cast_vote_record voter now bump i ata staker pool account e.proposal r.0 r.1 ce in
    let id_kept : e.proposal.id ≡ p.id = ground (arith, t.frame) in
    let options_kept : e.proposal.options ≡ p.options = ground (arith, t.frame) in
    let start_kept : e.proposal.voting_starts ≡ p.voting_starts = ground (arith, t.frame) in
    let end_kept : e.proposal.voting_ends ≡ p.voting_ends = ground (arith, t.frame) in
    let accepted : IsVote p r.1 = record {
      proposal_id = same_id ∙ id_kept;
      option = rw (chosen, ← options_kept) valid;
      weight = weight;
      begun = rw (at_time, ← start_kept) begun;
      in_time = rw (at_time, ← end_kept) in_time;
    } in
    subst (IsTallied p) (ok-injective h1) (
      voted-IsTallied voter i count r.1 p e.proposal r.0 e.vote_records t vacant at chosen accepted
        counted pe)

created-IsTallied :
    (owner pool_key : Pubkey) (now : ℤ) (bump : ℕ) (draft : Draft) (account : Option Proposal)
    (pool : StakingPool) (config config' : GovernanceConfig) (p : Proposal)
    → create_proposal owner pool_key now bump draft account pool config ≡ ok (p, config')
    → IsTallied p (opened p)
unfolding create_proposal
created-IsTallied owner pool_key now bump draft account pool config config' p h =
    let (_, _, _, _, _, _, _, sized, _, _, _, counted, total, _, _, _) =
      created_proposal owner pool_key now bump draft account pool config config' p h in
    let counts : p.vote_counts ≡ replicate (length draft.options) 0 = ground arith in
    record {
      frame = refl;
      sized = sized;
      votes = tt;
      total = total;
      counted = counted;
      counts = λ i c e.
          get-replicate (length draft.options) i c (subst (λ xs. get_elem? xs i ≡ some c) counts e);
    }

-- A proposal that is active after an event was active before it, and the event was a vote.
Event-IsTallied :
    (p : Proposal) {e e' : Election}
    → Event e e'
    → e'.proposal.status ≡ 0
    → (e.proposal.status ≡ 0) × (IsTallied p e → IsTallied p e')
Event-IsTallied p {e} {e' = e'} (voted voter now bump i ata staker pool h) active = (
  vote_active voter now bump i ata staker pool e e' h,
  vote-IsTallied voter now bump i ata staker pool p e e' h,
)
Event-IsTallied p {e} {e' = e'} (withdrawn authority h) active =
    let (over, same) = withdrawn-eq authority e e' h in
    absurd (over (ap (λ (q : Proposal). q.status) (sym same) ∙ active))
Event-IsTallied p {e} {e' = e'} (closed now pool config h) active =
    let (_, _, over, _) = close_election-eq now pool config e e' h in absurd (over active)
Event-IsTallied p {e} {e' = e'}
      (executed {exit = exit} call asset_mint dlmm_pool position pool config account h) active =
    let (passed, pe, _) =
      execute_election-eq call asset_mint dlmm_pool position pool config account exit e e' h in
    let one : e'.proposal.status ≡ 1 = ground arith in absurd (omega (arith, one, active))

-- From the creation of a proposal, whatever votes, withdrawals, closings and executions come then: while it
-- is active, each record is a vote on this proposal for one of its options, cast in its window with a weight that is not zero; each option's count is
-- the sum of the weights of the records for it, the total is the sum of all, and besides the counts nothing of the proposal
-- has changed.
pub election-IsTallied :
    (owner pool_key : Pubkey) (now : ℤ) (bump : ℕ) (draft : Draft) (account : Option Proposal)
    (pool : StakingPool) (config config' : GovernanceConfig) (p : Proposal) {e : Election}
    → create_proposal owner pool_key now bump draft account pool config ≡ ok (p, config')
    → History (opened p) e
    → e.proposal.status ≡ 0
    → IsTallied p e
election-IsTallied owner pool_key now bump draft account pool config config' p h here active =
    created-IsTallied owner pool_key now bump draft account pool config config' p h
election-IsTallied owner pool_key now bump draft account pool config config' p h
      (next history event) active =
    let (before, step) = Event-IsTallied p event active in
    step (
      election-IsTallied owner pool_key now bump draft account pool config config' p h history
        before)
