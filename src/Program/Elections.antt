-- ===== src/Program/Elections.antt =====
-- What an instruction of the program does to the proposals and their vote records is an event of one
-- election, or opens a new one.
use dlmm_auto_sell_assets_in.Base.{
  ℕ, ◌≡◌, refl, sym, ap, ◌∙◌, Option, none, some, is_empty, Bool, List,
}
use dlmm_auto_sell_assets_in.Base.Int.{ℤ}
use dlmm_auto_sell_assets_in.Base.Assoc.{Assoc, lookup, insert}
use dlmm_auto_sell_assets_in.Errors.{
  Result, ok, >>=-eq-ok, constraint-eq-ok, ok-injective, account_in_use,
}
use dlmm_auto_sell_assets_in.State.{Pubkey, StakingPool, DlmmExit, GovernanceConfig, Proposal}
use dlmm_auto_sell_assets_in.Exits.{initiate_exit}
use dlmm_auto_sell_assets_in.Halt.{handle_emergency_halt}
use dlmm_auto_sell_assets_in.Ledger.{Ledger, existing}
use dlmm_auto_sell_assets_in.Ledger.Inversion.{existing-eq-ok}
use dlmm_auto_sell_assets_in.Governance.Proposals.{Draft, create_proposal}
use dlmm_auto_sell_assets_in.Governance.Proposals.Opening.{created_proposal}
use dlmm_auto_sell_assets_in.Governance.Election.{
  Election, Event, voted, executed, opened, vote, execute_election,
}
use dlmm_auto_sell_assets_in.Program.{
  Framework, Environment, Program, call_of, pool_of, on_ledger, on_pool, on_config, on_election,
  put_tracker, on_tracker, load_tracker,
}
use dlmm_auto_sell_assets_in.Program.Dispatch.{
  unwritten, process_initiate_exit, process_governance_exit, process_create_proposal,
  process_cast_vote, process_emergency_halt, halt_context, stake_account, proposal_at,
}

-- The proposal was made by create_proposal, with this number.
pub data IsCreated (id : ℕ) (p : Proposal) : Type 0 where
  created :
      {config' : GovernanceConfig} (owner pool_key : Pubkey) (now : ℤ) (bump : ℕ) (draft : Draft)
      (account : Option Proposal) (pool : StakingPool) (config : GovernanceConfig)
      → create_proposal owner pool_key now bump draft account pool config ≡ ok (p, config')
      → p.id ≡ id
      → IsCreated id p

-- What may happen to the elections at one instruction.
pub data Move (m m' : Assoc Election) : Type 0 where
  kept : m' ≡ m → Move m m'
  evolved :
      (id : ℕ) (e e' : Election)
      → lookup id m ≡ some e
      → Event e e'
      → m' ≡ insert id e' m
      → Move m m'
  started : (id : ℕ) (p : Proposal) → IsCreated id p → m' ≡ insert id (opened p) m → Move m m'

abbrev pub elections_of : Program → Assoc Election
elections_of s = s.elections

pub on_election-Move :
    (id : ℕ) (f : Election → Result Election) (s s' : Program)
    → ((e e' : Election) → f e ≡ ok e' → Event e e')
    → on_election id f s ≡ ok s'
    → Move s.elections s'.elections
on_election-Move id f s s' event h =
    let (e, found, h1) = >>=-eq-ok (existing (lookup id s.elections)) _ h in
    let (e', fe, h2) = >>=-eq-ok (f e) _ h1 in
    evolved id e e' (existing-eq-ok (lookup id s.elections) found) (event e e' fe)
      (ap elections_of (sym (ok-injective h2)))

pub on_ledger-elections :
    (f : Ledger → Result Ledger) (s s' : Program)
    → on_ledger f s ≡ ok s'
    → s'.elections ≡ s.elections
on_ledger-elections f s s' h =
    let (l, _, h1) = >>=-eq-ok (f s.ledger) _ h in ap elections_of (sym (ok-injective h1))

pub on_pool-elections :
    (f : StakingPool → Result StakingPool) (s s' : Program)
    → on_pool f s ≡ ok s'
    → s'.elections ≡ s.elections
on_pool-elections f s s' h =
    let (pool, _, h1) = >>=-eq-ok (f (pool_of s)) _ h in ap elections_of (sym (ok-injective h1))

pub on_config-elections :
    (f : GovernanceConfig → Result GovernanceConfig) (s s' : Program)
    → on_config f s ≡ ok s'
    → s'.elections ≡ s.elections
on_config-elections f s s' h =
    let (config, _, h1) = >>=-eq-ok (existing s.governance_config) _ h in
    let (_, _, h2) = >>=-eq-ok (f config) _ h1 in ap elections_of (sym (ok-injective h2))

pub put_tracker-elections :
    (fw : Framework) (key : Pubkey) (e : Option DlmmExit) (s : Program)
    → (put_tracker fw key e s).elections ≡ s.elections
put_tracker-elections fw key none s = refl
put_tracker-elections fw key (some e) s = refl

pub on_tracker-elections :
    (fw : Framework) (key : Pubkey) (f : DlmmExit → Result (Option DlmmExit)) (s s' : Program)
    → on_tracker fw key f s ≡ ok s'
    → s'.elections ≡ s.elections
on_tracker-elections fw key f s s' h =
    let (e, _, h1) = >>=-eq-ok (load_tracker fw key s) _ h in
    let (e', _, h2) = >>=-eq-ok (f e) _ h1 in
    ap elections_of (sym (ok-injective h2)) ∙ put_tracker-elections fw key e' s

pub unwritten-elections :
    (id : ℕ) (f : Proposal → Result (StakingPool × Proposal)) (s s' : Program)
    → unwritten id f s ≡ ok s'
    → s'.elections ≡ s.elections
unwritten-elections id f s s' h =
    let (config, _, h1) = >>=-eq-ok (existing s.governance_config) _ h in
    let (e, _, h2) = >>=-eq-ok (existing (lookup id s.elections)) _ h1 in
    let (_, _, h3) = >>=-eq-ok (f e.proposal) _ h2 in ap elections_of (sym (ok-injective h3))

module _ (fw : Framework) (env : Environment) (s s' : Program) where
  pub process_initiate_exit-elections :
      (asset_mint dlmm_pool position : Pubkey)
      → process_initiate_exit fw env asset_mint dlmm_pool position s ≡ ok s'
      → s'.elections ≡ s.elections
  unfolding process_initiate_exit
  process_initiate_exit-elections asset_mint dlmm_pool position h =
      let key = fw.tracker_key asset_mint dlmm_pool in
      let (_, h1) = constraint-eq-ok (is_empty (s.accounts key).bytes) account_in_use _ h in
      let (e, _, h2) =
        >>=-eq-ok (initiate_exit (call_of fw env) asset_mint dlmm_pool position (pool_of s) none) _
          h1 in
      ap elections_of (sym (ok-injective h2))

  pub process_governance_exit-Move :
      (id : ℕ) (asset_mint dlmm_pool position : Pubkey)
      → process_governance_exit fw env id asset_mint dlmm_pool position s ≡ ok s'
      → Move s.elections s'.elections
  unfolding process_governance_exit
  process_governance_exit-Move id asset_mint dlmm_pool position h =
      let key = fw.tracker_key asset_mint dlmm_pool in
      let (config, _, h1) = >>=-eq-ok (existing s.governance_config) _ h in
      let (e, found, h2) = >>=-eq-ok (existing (lookup id s.elections)) _ h1 in
      let (_, h3) = constraint-eq-ok (is_empty (s.accounts key).bytes) account_in_use _ h2 in
      let (r, re, h4) =
        >>=-eq-ok
          (execute_election (call_of fw env) asset_mint dlmm_pool position (pool_of s) config none
            e)
          _ h3 in
      evolved id e r.1 (existing-eq-ok (lookup id s.elections) found)
        (executed (call_of fw env) asset_mint dlmm_pool position (pool_of s) config none re)
        (ap elections_of (sym (ok-injective h4)))

  pub process_create_proposal-Move :
      (draft : Draft)
      → process_create_proposal fw env draft s ≡ ok s'
      → Move s.elections s'.elections
  unfolding process_create_proposal
  process_create_proposal-Move draft h =
      let (config, _, h1) = >>=-eq-ok (existing s.governance_config) _ h in
      let account = proposal_at (lookup config.next_proposal_id s.elections) in
      let (r, re, h2) =
        >>=-eq-ok
          (create_proposal env.signer fw.runtime.pool_key env.now env.bump draft account (pool_of s)
            config)
          _ h1 in
      let (_, _, _, _, _, _, _, _, _, _, _, _, _, _, numbered, _) =
        created_proposal env.signer fw.runtime.pool_key env.now env.bump draft account (pool_of s)
          config r.1 r.0 re in
      started config.next_proposal_id r.0
        (created env.signer fw.runtime.pool_key env.now env.bump draft account (pool_of s) config re
          numbered)
        (ap elections_of (sym (ok-injective h2)))

  pub process_cast_vote-Move :
      (id : ℕ) (ata : Pubkey) (with_staker : Bool) (option_index : ℕ)
      → process_cast_vote fw env id ata with_staker option_index s ≡ ok s'
      → Move s.elections s'.elections
  unfolding process_cast_vote
  process_cast_vote-Move id ata with_staker option_index h =
      let (config, _, h1) = >>=-eq-ok (existing s.governance_config) _ h in
      let (staker, _, h2) = >>=-eq-ok (stake_account with_staker env.signer s.ledger) _ h1 in
      let wallet = s.ledger.bank.tokens ata in
      on_election-Move id (vote env.signer env.now env.bump option_index wallet staker (pool_of s))
        s s' (λ e e' v. voted env.signer env.now env.bump option_index wallet staker (pool_of s) v)
        h2

  pub process_emergency_halt-elections :
      (remaining : List Pubkey)
      → process_emergency_halt fw env remaining s ≡ ok s'
      → s'.elections ≡ s.elections
  unfolding process_emergency_halt
  process_emergency_halt-elections remaining h =
      let (r, _, h1) =
        >>=-eq-ok
          (handle_emergency_halt (halt_context fw env) env.signer remaining (pool_of s) s.accounts)
          _ h in
      ap elections_of (sym (ok-injective h1))
