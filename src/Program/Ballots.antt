-- ===== src/Program/Ballots.antt =====
-- Every proposal that a run of the program comes to has been created and has gone through events only.
use dlmm_auto_sell_assets_in.Base.{
  ℕ, ◌≡◌, ◌≢◌, ◌⊎◌, arith, sym, ap, subst, ◌∙◌, some, ◌==◌, inl, inr, Bool-cases, ==→≡,
}
use dlmm_auto_sell_assets_in.Base.Assoc.{Assoc, lookup, insert, lookup-insert}
use dlmm_auto_sell_assets_in.Errors.{ok, >>=-eq-ok, ok-injective}
use dlmm_auto_sell_assets_in.State.{Pubkey, StakingPool, Proposal}
use dlmm_auto_sell_assets_in.Runtime.{Bank}
use dlmm_auto_sell_assets_in.Admin.{
  resume, update_crank, update_treasury, update_pool_config, transfer_ownership, accept_ownership,
  renounce_ownership,
}
use dlmm_auto_sell_assets_in.Halt.{AccountInfo}
use dlmm_auto_sell_assets_in.Ledger.{
  existing, stake, deposit_rewards, claim, unstake, emergency_rescue,
}
use dlmm_auto_sell_assets_in.Governance.Config.{initialize_governance}
use dlmm_auto_sell_assets_in.Governance.Election.{
  Election, withdrawn, closed, History, here, next, opened, withdraw_record, close_election,
}
use dlmm_auto_sell_assets_in.Governance.Election.Tally.{IsTallied, election-IsTallied}
use dlmm_auto_sell_assets_in.Program.{Framework, Environment, Program, pool_of}
use dlmm_auto_sell_assets_in.Program.Instruction
use dlmm_auto_sell_assets_in.Program.Dispatch.{process}
use dlmm_auto_sell_assets_in.Program.Coverage.{Run, begun, processed, outside, launched}
use dlmm_auto_sell_assets_in.Program.Elections.{
  IsCreated, created, Move, kept, evolved, started, elections_of, on_election-Move,
  on_ledger-elections, on_pool-elections, on_config-elections, on_tracker-elections,
  unwritten-elections, process_initiate_exit-elections, process_governance_exit-Move,
  process_create_proposal-Move, process_cast_vote-Move, process_emergency_halt-elections,
}

module _ (fw : Framework) (env : Environment) (s s' : Program) where
  process-Move :
      (i : Instruction.Instruction) → process fw env i s ≡ ok s' → Move s.elections s'.elections
  unfolding process
  process-Move (Instruction.stake ata vault amount) h =
      kept
        (on_ledger-elections (stake fw.runtime env.signer ata vault env.now env.bump amount) s s' h)
  process-Move (Instruction.deposit_rewards vault treasury amount) h =
      kept
        (on_ledger-elections (deposit_rewards fw.runtime env.signer vault treasury amount) s s' h)
  process-Move (Instruction.claim vault) h =
      kept (on_ledger-elections (claim fw.runtime env.signer vault env.now) s s' h)
  process-Move (Instruction.unstake vault ata reward_vault) h =
      kept
        (on_ledger-elections (unstake fw.runtime env.signer vault ata reward_vault env.now) s s' h)
  process-Move (Instruction.emergency_rescue ata vault reward_vault) h =
      kept
        (on_ledger-elections (emergency_rescue fw.runtime env.signer ata vault reward_vault) s s' h)
  process-Move (Instruction.initiate_exit asset_mint dlmm_pool position) h =
      kept (process_initiate_exit-elections fw env s s' asset_mint dlmm_pool position h)
  process-Move (Instruction.record_claim tracker amount) h =
      kept (on_tracker-elections fw tracker _ s s' h)
  process-Move (Instruction.complete_exit tracker) h =
      kept (on_tracker-elections fw tracker _ s s' h)
  process-Move (Instruction.terminate_exit tracker) h =
      kept (on_tracker-elections fw tracker _ s s' h)
  process-Move (Instruction.close_dlmm_exit tracker) h =
      kept (on_tracker-elections fw tracker _ s s' h)
  process-Move (Instruction.emergency_halt remaining) h =
      kept (process_emergency_halt-elections fw env s s' remaining h)
  process-Move Instruction.resume h = kept (on_pool-elections (resume env.signer) s s' h)
  process-Move (Instruction.update_crank key) h =
      kept (on_pool-elections (update_crank env.signer key) s s' h)
  process-Move (Instruction.update_treasury key) h =
      kept (on_pool-elections (update_treasury env.signer key) s s' h)
  process-Move (Instruction.update_pool_config min_stake fee_bps) h =
      kept (on_pool-elections (update_pool_config env.signer min_stake fee_bps) s s' h)
  process-Move (Instruction.transfer_ownership key) h =
      kept (on_pool-elections (transfer_ownership env.signer key) s s' h)
  process-Move Instruction.accept_ownership h =
      kept (on_pool-elections (accept_ownership env.signer) s s' h)
  process-Move Instruction.renounce_ownership h =
      kept (on_pool-elections (renounce_ownership fw.from_str env.signer) s s' h)
  process-Move Instruction.initialize_governance h =
      let (config, _, h1) =
        >>=-eq-ok
          (initialize_governance env.signer fw.runtime.pool_key env.bump (pool_of s)
            s.governance_config)
          _ h in
      kept (ap elections_of (sym (ok-injective h1)))
  process-Move (Instruction.set_auto_execute enabled) h = kept (on_config-elections _ s s' h)
  process-Move (Instruction.set_quorum bps) h = kept (on_config-elections _ s s' h)
  process-Move (Instruction.create_proposal draft) h =
      process_create_proposal-Move fw env s s' draft h
  process-Move (Instruction.cast_vote id ata with_staker option_index) h =
      process_cast_vote-Move fw env s s' id ata with_staker option_index h
  process-Move (Instruction.close_proposal id) h =
      let (config, _, h1) = >>=-eq-ok (existing s.governance_config) _ h in
      on_election-Move id (close_election env.now (pool_of s) config) s s'
        (λ e e' c. closed env.now (pool_of s) config c) h1
  process-Move (Instruction.close_vote_record id) h =
      on_election-Move id (withdraw_record env.signer) s s' (λ e e' w. withdrawn env.signer w) h
  process-Move (Instruction.governance_initiate_exit id asset_mint dlmm_pool position) h =
      process_governance_exit-Move fw env s s' id asset_mint dlmm_pool position h
  process-Move (Instruction.update_treasury_by_governance id key) h =
      kept (unwritten-elections id _ s s' h)
  process-Move (Instruction.update_pool_config_by_governance id min_stake fee_bps) h =
      kept (unwritten-elections id _ s s' h)

-- A proposal with a past: its creation and the events since.
pub record IsGenuine (id : ℕ) (e : Election) : Type 0 where
  pub origin : Proposal
  pub creation : IsCreated id origin
  pub history : History (opened origin) e

abbrev AllGenuine : Assoc Election → Type 0
AllGenuine m = (id : ℕ) (e : Election) → lookup id m ≡ some e → IsGenuine id e

inserted-AllGenuine :
    (k : ℕ) (new : Election) (m : Assoc Election)
    → IsGenuine k new
    → AllGenuine m
    → AllGenuine (insert k new m)
inserted-AllGenuine k new m genuine all id e found =
    let found' = sym (lookup-insert id k new m) ∙ found in
    elim (Bool-cases (id == k)) [
      | inl same ↦
          let here_now : some new ≡ some e = rw same at found' in
          let it : new ≡ e = ground arith in
          subst (λ j. IsGenuine j e) (sym (==→≡ id k same)) (subst (IsGenuine k) it genuine)
      | inr other ↦ all id e (rw other at found')
    ]

Move-AllGenuine : (m m' : Assoc Election) → Move m m' → AllGenuine m → AllGenuine m'
Move-AllGenuine m m' (kept same) all = rw same all
Move-AllGenuine m m' (evolved id e e' found event same) all =
    let past = all id e found in
    rw same (
      inserted-AllGenuine id e' m
        (record {
          origin = past.origin;
          creation = past.creation;
          history = next past.history event;
        })
        all)
Move-AllGenuine m m' (started id p creation same) all = rw same (
    inserted-AllGenuine id (opened p) m (record { origin = p; creation = creation; history = here })
      all)

Run-AllGenuine :
    (fw : Framework) (pool : StakingPool) (bank : Bank) (accounts : Pubkey → AccountInfo)
    {s : Program}
    → Run fw (launched pool bank accounts) s
    → AllGenuine s.elections
Run-AllGenuine fw pool bank accounts begun = λ id e found. ground arith
Run-AllGenuine fw pool bank accounts (processed {s = s} {s' = s'} env i run _ _ h) =
    Move-AllGenuine s.elections s'.elections (process-Move fw env s s' i h)
      (Run-AllGenuine fw pool bank accounts run)
Run-AllGenuine fw pool bank accounts (outside bank' run _ _ _) =
    Run-AllGenuine fw pool bank accounts run

genuine_tally :
    (id : ℕ) (p : Proposal) (e : Election)
    → IsCreated id p
    → History (opened p) e
    → e.proposal.status ≡ 0
    → IsTallied p e
genuine_tally id p e
      (created {config' = config'} owner pool_key now bump draft account pool config h _) history
      active =
    election-IsTallied owner pool_key now bump draft account pool config config' p h history active

-- Whatever instructions but reallocations run after the launch of the program: every proposal that stands
-- at a number was made by create_proposal with that number, and has since gone through votes, withdrawals
-- of records, closings and executions only; it is no longer active, or its counts are what the vote
-- records say.
pub program_elections :
    (fw : Framework) (pool : StakingPool) (bank : Bank) (accounts : Pubkey → AccountInfo)
    {s : Program} (id : ℕ) (e : Election)
    → Run fw (launched pool bank accounts) s
    → lookup id s.elections ≡ some e
    → (g : IsGenuine id e) × ((e.proposal.status ≢ 0) ⊎ IsTallied g.origin e)
program_elections fw pool bank accounts id e run found =
    let g = Run-AllGenuine fw pool bank accounts run id e found in
    (
      g,
      elim (Bool-cases (e.proposal.status == 0)) [
        | inl active ↦ inr (genuine_tally id g.origin e g.creation g.history (ground arith))
        | inr over ↦ inl (ground arith)
      ],
    )
