-- ===== src/Governance/Election/Events.antt =====
-- What each event on a proposal has passed and left.
use dlmm_auto_sell_assets_in.Base.{ℕ, ◌≡◌, ◌≢◌, inl, inr, arith, sym, ap, ◌∙◌, Option, true}
use dlmm_auto_sell_assets_in.Base.Int.{ℤ}
use dlmm_auto_sell_assets_in.Base.Assoc.{lookup, erase}
use dlmm_auto_sell_assets_in.Errors.{ok, >>=-eq-ok, ok-injective}
use dlmm_auto_sell_assets_in.State.{Pubkey, StakingPool, StakerAccount, DlmmExit, GovernanceConfig}
use dlmm_auto_sell_assets_in.Runtime.{TokenAccount}
use dlmm_auto_sell_assets_in.Exits.{Call}
use dlmm_auto_sell_assets_in.Ledger.{existing}
use dlmm_auto_sell_assets_in.Governance.Voting.{cast_vote, close_vote_record}
use dlmm_auto_sell_assets_in.Governance.Voting.Accounting.{cast_vote_checks}
use dlmm_auto_sell_assets_in.Governance.Closing.{close_proposal}
use dlmm_auto_sell_assets_in.Governance.Closing.Outcome.{close_proposal-eq, closed_status}
use dlmm_auto_sell_assets_in.Governance.Execution.{governance_initiate_exit}
use dlmm_auto_sell_assets_in.Governance.Execution.Timelock.{governance_exit_needs}
use dlmm_auto_sell_assets_in.Governance.Election.{
  Election, vote, withdraw_record, close_election, execute_election,
}

-- Only an active proposal takes a vote.
pub vote_active :
    (voter : Pubkey) (now : ℤ) (bump i : ℕ) (ata : TokenAccount) (staker : Option StakerAccount)
    (pool : StakingPool) (e e' : Election)
    → vote voter now bump i ata staker pool e ≡ ok e'
    → e.proposal.status ≡ 0
unfolding vote
vote_active voter now bump i ata staker pool e e' h =
    let account = lookup voter e.vote_records in
    let (r, ce, _) =
      >>=-eq-ok (cast_vote voter now bump i ata staker pool account e.proposal) _ h in
    let (_, _, active, _, _, _) =
      cast_vote_checks voter now bump i ata staker pool account e.proposal r.0 r.1 ce in
    active

-- A record is withdrawn only from a proposal that is no longer active.
pub withdrawn-eq :
    (authority : Pubkey) (e e' : Election)
    → withdraw_record authority e ≡ ok e'
    → (e.proposal.status ≢ 0) × (e'.proposal ≡ e.proposal)
unfolding withdraw_record close_vote_record
withdrawn-eq authority e e' h =
    let (r, _, h1) = >>=-eq-ok (existing (lookup authority e.vote_records)) _ h in
    let (_, ce, h2) = >>=-eq-ok (close_vote_record authority e.proposal r) _ h1 in
    (ground arith, ap (λ (x : Election). x.proposal) (sym (ok-injective h2)))

pub withdrawn-records :
    (authority : Pubkey) (e e' : Election)
    → withdraw_record authority e ≡ ok e'
    → e'.vote_records ≡ erase authority e.vote_records
unfolding withdraw_record
withdrawn-records authority e e' h =
    let (r, _, h1) = >>=-eq-ok (existing (lookup authority e.vote_records)) _ h in
    let (_, _, h2) = >>=-eq-ok (close_vote_record authority e.proposal r) _ h1 in
    ap (λ (x : Election). x.vote_records) (sym (ok-injective h2))

-- A closing ends the active state.
pub close_election-eq :
    (now : ℤ) (pool : StakingPool) (config : GovernanceConfig) (e e' : Election)
    → close_election now pool config e ≡ ok e'
    → (e.proposal.status ≡ 0)
      × (close_proposal now pool config e.proposal ≡ ok e'.proposal)
      × (e'.proposal.status ≢ 0)
      × (e'.vote_records ≡ e.vote_records)
unfolding close_election
close_election-eq now pool config e e' h =
    let (p, ce, h1) = >>=-eq-ok (close_proposal now pool config e.proposal) _ h in
    let (active, _, pe) = close_proposal-eq now pool config e.proposal p ce in
    let same = ok-injective h1 in
    let done = closed_status now config e.proposal p pe in
    let q : e'.proposal ≡ p = ap (λ (x : Election). x.proposal) (sym same) in
    (
      active,
      ce ∙ ap ok (sym q),
      λ z. elim done [ inl one ↦ ground arith | inr two ↦ ground arith ],
      ap (λ (x : Election). x.vote_records) (sym same),
    )

-- An execution marks a passed proposal and changes nothing else of it.
pub execute_election-eq :
    (call : Call) (asset_mint dlmm_pool position : Pubkey) (pool : StakingPool)
    (config : GovernanceConfig) (account : Option DlmmExit) (exit : DlmmExit) (e e' : Election)
    → execute_election call asset_mint dlmm_pool position pool config account e ≡ ok (exit, e')
    → (e.proposal.status ≡ 1)
      × (e'.proposal ≡ record (e.proposal) { executed = true })
      × (e'.vote_records ≡ e.vote_records)
unfolding execute_election
execute_election-eq call asset_mint dlmm_pool position pool config account exit e e' h =
    let (r, ce, h1) =
      >>=-eq-ok
        (governance_initiate_exit call asset_mint dlmm_pool position pool config account e.proposal)
        _ h in
    let (_, _, _, passed, _, _, _, _, pe, _) =
      governance_exit_needs call asset_mint dlmm_pool position pool config account e.proposal r.1
        r.0 ce in
    let same : record e { proposal = r.1 } ≡ e' = ground (arith, ok-injective h1) in
    (
      passed,
      ap (λ (x : Election). x.proposal) (sym same) ∙ pe,
      ap (λ (x : Election). x.vote_records) (sym same),
    )
