-- ===== src/Governance/Election/Finality.antt =====
-- What cannot change once a proposal is closed.
use dlmm_auto_sell_assets_in.Base.{
  ℕ, ◌≡◌, ◌≢◌, arith, refl, sym, ◌∙◌, inl, inr, none, true, ◌==◌, [], ◌∷◌, Bool-cases,
}
use dlmm_auto_sell_assets_in.Base.Assoc.{Assoc, lookup, erase}
use dlmm_auto_sell_assets_in.State.{Pubkey}
use dlmm_auto_sell_assets_in.Governance.Election.{
  Election, Event, voted, withdrawn, closed, executed, History, here, next,
}
use dlmm_auto_sell_assets_in.Governance.Election.Events.{
  vote_active, withdrawn-eq, withdrawn-records, close_election-eq, execute_election-eq,
}

lookup-erase :
    {V : Type 0} (k j : ℕ) (m : Assoc V) → lookup j m ≡ none → lookup j (erase k m) ≡ none
lookup-erase k j [] h = refl
lookup-erase k j ((i, v) ∷ m) h = elim (Bool-cases (j == i)) [
  | inl same ↦ ground arith
  | inr other ↦
      let later : lookup j m ≡ none = rw other at h in
      elim (Bool-cases (k == i)) [
        | inl erased ↦ rw erased later
        | inr kept ↦ rw (kept, other) (lookup-erase k j m later)
      ]
]

-- The proposal as it was but for the execution mark, which is not taken back, and no new record.
pub record IsFinal (e e' : Election) : Type 0 where
  pub result : e'.proposal ≡ record (e.proposal) { executed = e'.proposal.executed }
  pub marked : e.proposal.executed ≡ true → e'.proposal.executed ≡ true
  pub records :
      (voter : Pubkey) → lookup voter e.vote_records ≡ none → lookup voter e'.vote_records ≡ none

IsFinal-trans : (a b c : Election) → IsFinal a b → IsFinal b c → IsFinal a c
IsFinal-trans a b c f g = record {
  result = ground (arith, f.result, g.result);
  marked = λ h. g.marked (f.marked h);
  records = λ voter h. g.records voter (f.records voter h);
}

Event-IsFinal : {e e' : Election} → e.proposal.status ≢ 0 → Event e e' → IsFinal e e'
Event-IsFinal {e} {e' = e'} over (voted voter now bump i ata staker pool h) =
    absurd (over (vote_active voter now bump i ata staker pool e e' h))
Event-IsFinal {e} {e' = e'} over (withdrawn authority h) =
    let (_, same) = withdrawn-eq authority e e' h in
    let records = withdrawn-records authority e e' h in
    record {
      result = ground arith;
      marked = λ m. ground arith;
      records =
          λ voter none_there. rw records (lookup-erase authority voter e.vote_records none_there);
    }
Event-IsFinal {e} {e' = e'} over (closed now pool config h) =
    let (active, _, _, _) = close_election-eq now pool config e e' h in absurd (over active)
Event-IsFinal {e} {e' = e'} over
      (executed {exit = exit} call asset_mint dlmm_pool position pool config account h) =
    let (_, marked, records) =
      execute_election-eq call asset_mint dlmm_pool position pool config account exit e e' h in
    record {
      result = ground arith;
      marked = λ m. ground arith;
      records = λ voter none_there. rw records none_there;
    }

-- Once a proposal is closed, whatever votes, withdrawals, closings and executions are tried then: its
-- status, its winning option, its counts and all else but the execution mark stay, the mark is not taken
-- back, and no one who has no record of a vote gets one.
pub election-IsFinal : {e e' : Election} → e.proposal.status ≢ 0 → History e e' → IsFinal e e'
election-IsFinal {e} over here = record { result = refl; marked = λ m. m; records = λ voter h. h }
election-IsFinal {e} {e' = e'} over (next {e = mid} history event) =
    let f = election-IsFinal over history in
    let same : mid.proposal.status ≡ e.proposal.status = ground (arith, f.result) in
    IsFinal-trans e mid e' f (Event-IsFinal (λ z. over (sym same ∙ z)) event)
