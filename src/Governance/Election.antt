-- ===== src/Governance/Election.antt =====
-- The life of one proposal with the vote records on it, over create_proposal.rs, cast_vote.rs,
-- close_proposal.rs, close_vote_record.rs and governance_initiate_exit.rs. A vote record is the
-- program-derived address of the proposal and its voter, so the records are kept by voter.
pub mod Events
pub mod Tally
pub mod Finality
pub mod Outcome
use dlmm_auto_sell_assets_in.Base.{ℕ, ◌≡◌, Option, some, none, [], ◌==◌, if◌then◌else◌}
use dlmm_auto_sell_assets_in.Base.Int.{ℤ}
use dlmm_auto_sell_assets_in.Base.Assoc.{Assoc, lookup, insert, erase}
use dlmm_auto_sell_assets_in.Errors.{Result, ok, ◌>>=◌}
use dlmm_auto_sell_assets_in.State.{
  Pubkey, StakingPool, StakerAccount, DlmmExit, GovernanceConfig, Proposal, VoteRecord,
}
use dlmm_auto_sell_assets_in.Runtime.{TokenAccount}
use dlmm_auto_sell_assets_in.Exits.{Call}
use dlmm_auto_sell_assets_in.Ledger.{existing}
use dlmm_auto_sell_assets_in.Governance.Voting.{cast_vote, close_vote_record}
use dlmm_auto_sell_assets_in.Governance.Closing.{close_proposal}
use dlmm_auto_sell_assets_in.Governance.Execution.{governance_initiate_exit}

pub record Election : Type 0 where
  pub proposal : Proposal
  pub vote_records : Assoc VoteRecord

-- `cast_vote`, which creates the record of its voter.
unfoldable pub vote :
    Pubkey
    → ℤ
    → ℕ
    → ℕ
    → TokenAccount
    → Option StakerAccount
    → StakingPool
    → Election
    → Result Election
vote voter now bump option_index ata staker pool e = do
  (proposal, vote_record) ←
      cast_vote voter now bump option_index ata staker pool (lookup voter e.vote_records) e.proposal
  ok (record { proposal = proposal; vote_records = insert voter vote_record e.vote_records })

-- `close_vote_record`, which closes the record of its signer.
unfoldable pub withdraw_record : Pubkey → Election → Result Election
withdraw_record authority e = do
  vote_record ← existing (lookup authority e.vote_records)
  closed ← close_vote_record authority e.proposal vote_record
  ok (record e { vote_records = erase authority e.vote_records })

-- `close_proposal`
unfoldable pub close_election : ℤ → StakingPool → GovernanceConfig → Election → Result Election
close_election now pool config e = do
  proposal ← close_proposal now pool config e.proposal
  ok (record e { proposal = proposal })

-- `governance_initiate_exit`
unfoldable pub execute_election :
    Call
    → Pubkey
    → Pubkey
    → Pubkey
    → StakingPool
    → GovernanceConfig
    → Option DlmmExit
    → Election
    → Result (DlmmExit × Election)
execute_election call asset_mint dlmm_pool position pool config account e = do
  (exit, proposal) ←
      governance_initiate_exit call asset_mint dlmm_pool position pool config account e.proposal
  ok (exit, record e { proposal = proposal })

-- One instruction on the proposal; the pool, the wallets and the stakes may be different at each.
pub data Event : Election → Election → Type 0 where
  voted :
      {e e' : Election} (voter : Pubkey) (now : ℤ) (bump option_index : ℕ) (ata : TokenAccount)
      (staker : Option StakerAccount) (pool : StakingPool)
      → vote voter now bump option_index ata staker pool e ≡ ok e'
      → Event e e'
  withdrawn :
      {e e' : Election} (authority : Pubkey) → withdraw_record authority e ≡ ok e' → Event e e'
  closed :
      {e e' : Election} (now : ℤ) (pool : StakingPool) (config : GovernanceConfig)
      → close_election now pool config e ≡ ok e'
      → Event e e'
  executed :
      {e e' : Election} {exit : DlmmExit} (call : Call) (asset_mint dlmm_pool position : Pubkey)
      (pool : StakingPool) (config : GovernanceConfig) (account : Option DlmmExit)
      → execute_election call asset_mint dlmm_pool position pool config account e ≡ ok (exit, e')
      → Event e e'

pub data History (start : Election) : Election → Type 0 where
  here : History start start
  next : {e e' : Election} → History start e → Event e e' → History start e'

-- A proposal on which no one has voted.
abbrev pub opened : Proposal → Election
opened p = record { proposal = p; vote_records = [] }
