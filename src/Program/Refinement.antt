-- ===== src/Program/Refinement.antt =====
-- What an instruction of the program does to the pool, the stakers and the balances is a step of Ledger.
use dlmm_auto_sell_assets_in.Base.{
  ℕ, ◌≡◌, ◌⊎◌, ◌≤◌, List, inr, arith, refl, sym, ap, subst, Option, none, some, is_empty, Bool,
}
use dlmm_auto_sell_assets_in.Base.Assoc.{lookup, insert}
use dlmm_auto_sell_assets_in.Errors.{
  Result, ok, >>=-eq-ok, constraint-eq-ok, ok-injective, account_in_use,
}
use dlmm_auto_sell_assets_in.State.{Pubkey, StakingPool, DlmmExit, GovernanceConfig, Proposal}
use dlmm_auto_sell_assets_in.Runtime.{Runtime}
use dlmm_auto_sell_assets_in.Admin.Changes.{Change}
use dlmm_auto_sell_assets_in.Ledger.{Ledger, existing}
use dlmm_auto_sell_assets_in.Ledger.Steps.{Step, administered, halted}
use dlmm_auto_sell_assets_in.Governance.Election.{Election, execute_election}
use dlmm_auto_sell_assets_in.Program.{
  Framework, Environment, Program, call_of, pool_of, on_ledger, on_pool, on_config, on_election,
  put_tracker, on_tracker, load_tracker,
}
use dlmm_auto_sell_assets_in.Program.Instruction
use dlmm_auto_sell_assets_in.Program.Dispatch.{
  unwritten, process_initiate_exit, process_governance_exit, process_create_proposal,
  process_cast_vote, process_emergency_halt, halt_context, stake_account, proposal_at,
}
use dlmm_auto_sell_assets_in.Exits.{initiate_exit}
use dlmm_auto_sell_assets_in.Halt.{handle_emergency_halt}
use dlmm_auto_sell_assets_in.Ledger.Conservation.{changes}
use dlmm_auto_sell_assets_in.Governance.Proposals.{Draft, create_proposal}

-- The pool, the stakers and the balances are as they were, or take one step, with at most `n` changes of
-- tier by a claim.
abbrev pub StepOrStay : Runtime → ℕ → Ledger → Ledger → Type 0
StepOrStay rt n l l' = (l' ≡ l) ⊎ ((step : Step rt l l') × (changes step ≤ n))

-- The number of claims that an instruction is.
abbrev pub claims_of : Instruction.Instruction → ℕ
claims_of (Instruction.claim reward_vault) = 1
claims_of _ = 0

pub on_ledger-eq :
    (f : Ledger → Result Ledger) (s s' : Program)
    → on_ledger f s ≡ ok s'
    → f s.ledger ≡ ok s'.ledger
on_ledger-eq f s s' h =
    let (l, e, h1) = >>=-eq-ok (f s.ledger) _ h in
    subst (λ (x : Program). f s.ledger ≡ ok x.ledger) (ok-injective h1) e

pub on_pool-eq :
    (f : StakingPool → Result StakingPool) (s s' : Program)
    → on_pool f s ≡ ok s'
    → (pool : StakingPool) × (f (pool_of s) ≡ ok pool)
      × (s'.ledger ≡ record (s.ledger) { staking_pool = pool })
on_pool-eq f s s' h =
    let (pool, e, h1) = >>=-eq-ok (f (pool_of s)) _ h in
    (pool, e, ap (λ (x : Program). x.ledger) (sym (ok-injective h1)))

pub on_config-ledger :
    (f : GovernanceConfig → Result GovernanceConfig) (s s' : Program)
    → on_config f s ≡ ok s'
    → s'.ledger ≡ s.ledger
on_config-ledger f s s' h =
    let (config, _, h1) = >>=-eq-ok (existing s.governance_config) _ h in
    let (_, _, h2) = >>=-eq-ok (f config) _ h1 in
    ap (λ (x : Program). x.ledger) (sym (ok-injective h2))

pub on_election-ledger :
    (id : ℕ) (f : Election → Result Election) (s s' : Program)
    → on_election id f s ≡ ok s'
    → s'.ledger ≡ s.ledger
on_election-ledger id f s s' h =
    let (e, _, h1) = >>=-eq-ok (existing (lookup id s.elections)) _ h in
    let (_, _, h2) = >>=-eq-ok (f e) _ h1 in ap (λ (x : Program). x.ledger) (sym (ok-injective h2))

pub put_tracker-ledger :
    (fw : Framework) (key : Pubkey) (e : Option DlmmExit) (s : Program)
    → (put_tracker fw key e s).ledger ≡ s.ledger
put_tracker-ledger fw key none s = refl
put_tracker-ledger fw key (some e) s = refl

pub on_tracker-ledger :
    (fw : Framework) (key : Pubkey) (f : DlmmExit → Result (Option DlmmExit)) (s s' : Program)
    → on_tracker fw key f s ≡ ok s'
    → s'.ledger ≡ s.ledger
on_tracker-ledger fw key f s s' h =
    let (e, _, h1) = >>=-eq-ok (load_tracker fw key s) _ h in
    let (e', _, h2) = >>=-eq-ok (f e) _ h1 in
    subst (λ (x : Program). x.ledger ≡ s.ledger) (ok-injective h2) (put_tracker-ledger fw key e' s)

pub unwritten-ledger :
    (id : ℕ) (f : Proposal → Result (StakingPool × Proposal)) (s s' : Program)
    → unwritten id f s ≡ ok s'
    → s'.ledger ≡ s.ledger
unwritten-ledger id f s s' h =
    let (config, _, h1) = >>=-eq-ok (existing s.governance_config) _ h in
    let (e, _, h2) = >>=-eq-ok (existing (lookup id s.elections)) _ h1 in
    let (_, _, h3) = >>=-eq-ok (f e.proposal) _ h2 in
    ap (λ (x : Program). x.ledger) (sym (ok-injective h3))

module _ (fw : Framework) (env : Environment) where
  pub process_initiate_exit-ledger :
      (asset_mint dlmm_pool position : Pubkey) (s s' : Program)
      → process_initiate_exit fw env asset_mint dlmm_pool position s ≡ ok s'
      → s'.ledger ≡ s.ledger
  unfolding process_initiate_exit
  process_initiate_exit-ledger asset_mint dlmm_pool position s s' h =
      let key = fw.tracker_key asset_mint dlmm_pool in
      let (_, h1) = constraint-eq-ok (is_empty (s.accounts key).bytes) account_in_use _ h in
      let (e, _, h2) =
        >>=-eq-ok (initiate_exit (call_of fw env) asset_mint dlmm_pool position (pool_of s) none) _
          h1 in
      subst (λ (x : Program). x.ledger ≡ s.ledger) (ok-injective h2)
        (put_tracker-ledger fw key (some e) s)

  pub process_governance_exit-ledger :
      (id : ℕ) (asset_mint dlmm_pool position : Pubkey) (s s' : Program)
      → process_governance_exit fw env id asset_mint dlmm_pool position s ≡ ok s'
      → s'.ledger ≡ s.ledger
  unfolding process_governance_exit
  process_governance_exit-ledger id asset_mint dlmm_pool position s s' h =
      let key = fw.tracker_key asset_mint dlmm_pool in
      let (config, _, h1) = >>=-eq-ok (existing s.governance_config) _ h in
      let (e, _, h2) = >>=-eq-ok (existing (lookup id s.elections)) _ h1 in
      let (_, h3) = constraint-eq-ok (is_empty (s.accounts key).bytes) account_in_use _ h2 in
      let (r, _, h4) =
        >>=-eq-ok
          (execute_election (call_of fw env) asset_mint dlmm_pool position (pool_of s) config none
            e)
          _ h3 in
      subst (λ (x : Program). x.ledger ≡ s.ledger) (ok-injective h4)
        (put_tracker-ledger fw key (some r.0) (record s { elections = insert id r.1 s.elections }))

  pub process_create_proposal-ledger :
      (draft : Draft) (s s' : Program)
      → process_create_proposal fw env draft s ≡ ok s'
      → s'.ledger ≡ s.ledger
  unfolding process_create_proposal
  process_create_proposal-ledger draft s s' h =
      let (config, _, h1) = >>=-eq-ok (existing s.governance_config) _ h in
      let (_, _, h2) =
        >>=-eq-ok
          (create_proposal env.signer fw.runtime.pool_key env.now env.bump draft
            (proposal_at (lookup config.next_proposal_id s.elections)) (pool_of s) config)
          _ h1 in
      ap (λ (x : Program). x.ledger) (sym (ok-injective h2))

  pub process_cast_vote-ledger :
      (id : ℕ) (ata : Pubkey) (with_staker : Bool) (option_index : ℕ) (s s' : Program)
      → process_cast_vote fw env id ata with_staker option_index s ≡ ok s'
      → s'.ledger ≡ s.ledger
  unfolding process_cast_vote
  process_cast_vote-ledger id ata with_staker option_index s s' h =
      let (config, _, h1) = >>=-eq-ok (existing s.governance_config) _ h in
      let (staker, _, h2) = >>=-eq-ok (stake_account with_staker env.signer s.ledger) _ h1 in
      on_election-ledger id _ s s' h2

  pub process_emergency_halt-Step :
      (remaining_accounts : List Pubkey) (s s' : Program)
      → process_emergency_halt fw env remaining_accounts s ≡ ok s'
      → StepOrStay fw.runtime 0 s.ledger s'.ledger
  unfolding process_emergency_halt changes
  process_emergency_halt-Step remaining_accounts s s' h =
      let ((pool, accounts), he, h1) =
        >>=-eq-ok
          (handle_emergency_halt (halt_context fw env) env.signer remaining_accounts (pool_of s)
            s.accounts)
          _ h in
      let e = ap (λ (x : Program). x.ledger) (ok-injective h1) in
      subst (λ l. StepOrStay fw.runtime 0 s.ledger l) e
        (inr (
          halted (halt_context fw env) env.signer remaining_accounts s.accounts accounts he,
          omega arith,
        ))

  pub administered-Step :
      (f : StakingPool → Result StakingPool) (s s' : Program)
      → ((pool : StakingPool)
          → f (pool_of s) ≡ ok pool
          → Change fw.from_str env.signer (pool_of s) pool)
      → on_pool f s ≡ ok s'
      → StepOrStay fw.runtime 0 s.ledger s'.ledger
  unfolding changes
  administered-Step f s s' change h =
      let (pool, e, same) = on_pool-eq f s s' h in
      subst (λ l. StepOrStay fw.runtime 0 s.ledger l) (sym same)
        (inr (administered fw.from_str env.signer (change pool e), omega arith))
