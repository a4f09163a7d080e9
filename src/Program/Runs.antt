-- ===== src/Program/Runs.antt =====
-- Each instruction of the program against the steps of Ledger.
use dlmm_auto_sell_assets_in.Base.{◌≡◌, ◌≢◌, ◌≤◌, inl, inr, arith, sym, ap, Option, none, some}
use dlmm_auto_sell_assets_in.Base.Int.{ℤ}
use dlmm_auto_sell_assets_in.Base.Assoc.{lookup}
use dlmm_auto_sell_assets_in.Errors.{ok, >>=-eq-ok, ok-injective}
use dlmm_auto_sell_assets_in.State.{Pubkey, StakerAccount}
use dlmm_auto_sell_assets_in.Admin.{
  resume, update_crank, update_treasury, update_pool_config, transfer_ownership, accept_ownership,
  renounce_ownership,
}
use dlmm_auto_sell_assets_in.Admin.Changes.{
  resumed, crank_updated, treasury_updated, config_updated, ownership_offered, ownership_accepted,
  ownership_renounced,
}
use dlmm_auto_sell_assets_in.Ledger.{
  Ledger, existing, stake, deposit_rewards, claim, unstake, emergency_rescue,
}
use dlmm_auto_sell_assets_in.Ledger.Steps.{CanSign, staked, deposited, claimed, unstaked}
use dlmm_auto_sell_assets_in.Ledger.Solvency.{tier_change}
use dlmm_auto_sell_assets_in.Ledger.Conservation.{changes}
use dlmm_auto_sell_assets_in.Governance.Config.{initialize_governance}
use dlmm_auto_sell_assets_in.Program.{Framework, Environment, Program, pool_of}
use dlmm_auto_sell_assets_in.Program.Instruction
use dlmm_auto_sell_assets_in.Program.Dispatch.{process}
use dlmm_auto_sell_assets_in.Program.Refinement.{
  StepOrStay, claims_of, on_ledger-eq, on_config-ledger, on_election-ledger, on_tracker-ledger,
  unwritten-ledger, process_initiate_exit-ledger, process_governance_exit-ledger,
  process_create_proposal-ledger, process_cast_vote-ledger, process_emergency_halt-Step,
  administered-Step,
}

tier_change-le : (s : Option StakerAccount) (now : ℤ) → tier_change s now ≤ 1
tier_change-le none now = omega arith
tier_change-le (some s) now = ground arith

module _ (fw : Framework) (env : Environment) (s s' : Program) where
  stay : s'.ledger ≡ s.ledger → StepOrStay fw.runtime 0 s.ledger s'.ledger
  stay e = inl e

  -- Where no rescue succeeds, an instruction leaves the ledger or is a step of it, of which only a claim
  -- changes a tier.
  pub process-Step :
      (i : Instruction.Instruction)
      → CanSign fw.runtime env.signer s.ledger
      → ((ata brain_vault reward_vault : Pubkey) (l : Ledger)
          → emergency_rescue fw.runtime env.signer ata brain_vault reward_vault s.ledger ≢ ok l)
      → process fw env i s ≡ ok s'
      → StepOrStay fw.runtime (claims_of i) s.ledger s'.ledger
  unfolding process changes
  process-Step (Instruction.stake ata vault amount) can no_rescue h = inr (
    staked env.signer ata vault env.now env.bump amount can
        (on_ledger-eq (stake fw.runtime env.signer ata vault env.now env.bump amount) s s' h),
    omega arith,
  )
  process-Step (Instruction.deposit_rewards vault treasury amount) can no_rescue h = inr (
    deposited env.signer vault treasury amount can
        (on_ledger-eq (deposit_rewards fw.runtime env.signer vault treasury amount) s s' h),
    omega arith,
  )
  process-Step (Instruction.claim vault) can no_rescue h = inr (
    claimed env.signer vault env.now can
        (on_ledger-eq (claim fw.runtime env.signer vault env.now) s s' h),
    tier_change-le (lookup env.signer s.ledger.stakers) env.now,
  )
  process-Step (Instruction.unstake vault ata reward_vault) can no_rescue h = inr (
    unstaked env.signer vault ata reward_vault env.now can
        (on_ledger-eq (unstake fw.runtime env.signer vault ata reward_vault env.now) s s' h),
    omega arith,
  )
  process-Step (Instruction.emergency_rescue ata vault reward_vault) can no_rescue h = absurd (
      no_rescue ata vault reward_vault s'.ledger
        (on_ledger-eq (emergency_rescue fw.runtime env.signer ata vault reward_vault) s s' h))
  process-Step (Instruction.initiate_exit asset_mint dlmm_pool position) can no_rescue h =
      stay (process_initiate_exit-ledger fw env asset_mint dlmm_pool position s s' h)
  process-Step (Instruction.record_claim tracker amount) can no_rescue h =
      stay (on_tracker-ledger fw tracker _ s s' h)
  process-Step (Instruction.complete_exit tracker) can no_rescue h =
      stay (on_tracker-ledger fw tracker _ s s' h)
  process-Step (Instruction.terminate_exit tracker) can no_rescue h =
      stay (on_tracker-ledger fw tracker _ s s' h)
  process-Step (Instruction.close_dlmm_exit tracker) can no_rescue h =
      stay (on_tracker-ledger fw tracker _ s s' h)
  process-Step (Instruction.emergency_halt remaining) can no_rescue h =
      process_emergency_halt-Step fw env remaining s s' h
  process-Step Instruction.resume can no_rescue h =
      administered-Step fw env (resume env.signer) s s' (λ pool e. resumed e) h
  process-Step (Instruction.update_crank key) can no_rescue h =
      administered-Step fw env (update_crank env.signer key) s s' (λ pool e. crank_updated key e) h
  process-Step (Instruction.update_treasury key) can no_rescue h =
      administered-Step fw env (update_treasury env.signer key) s s'
        (λ pool e. treasury_updated key e) h
  process-Step (Instruction.update_pool_config min_stake fee_bps) can no_rescue h =
      administered-Step fw env (update_pool_config env.signer min_stake fee_bps) s s'
        (λ pool e. config_updated min_stake fee_bps e) h
  process-Step (Instruction.transfer_ownership key) can no_rescue h =
      administered-Step fw env (transfer_ownership env.signer key) s s'
        (λ pool e. ownership_offered key e) h
  process-Step Instruction.accept_ownership can no_rescue h =
      administered-Step fw env (accept_ownership env.signer) s s' (λ pool e. ownership_accepted e) h
  process-Step Instruction.renounce_ownership can no_rescue h =
      administered-Step fw env (renounce_ownership fw.from_str env.signer) s s'
        (λ pool e. ownership_renounced e) h
  process-Step Instruction.initialize_governance can no_rescue h =
      let (config, _, h1) =
        >>=-eq-ok
          (initialize_governance env.signer fw.runtime.pool_key env.bump (pool_of s)
            s.governance_config)
          _ h in
      stay (ap (λ (x : Program). x.ledger) (sym (ok-injective h1)))
  process-Step (Instruction.set_auto_execute enabled) can no_rescue h =
      stay (on_config-ledger _ s s' h)
  process-Step (Instruction.set_quorum bps) can no_rescue h = stay (on_config-ledger _ s s' h)
  process-Step (Instruction.create_proposal draft) can no_rescue h =
      stay (process_create_proposal-ledger fw env draft s s' h)
  process-Step (Instruction.cast_vote id ata with_staker option_index) can no_rescue h =
      stay (process_cast_vote-ledger fw env id ata with_staker option_index s s' h)
  process-Step (Instruction.close_proposal id) can no_rescue h =
      let (config, _, h1) = >>=-eq-ok (existing s.governance_config) _ h in
      stay (on_election-ledger id _ s s' h1)
  process-Step (Instruction.close_vote_record id) can no_rescue h =
      stay (on_election-ledger id _ s s' h)
  process-Step (Instruction.governance_initiate_exit id asset_mint dlmm_pool position) can no_rescue
        h =
      stay (process_governance_exit-ledger fw env id asset_mint dlmm_pool position s s' h)
  process-Step (Instruction.update_treasury_by_governance id key) can no_rescue h =
      stay (unwritten-ledger id _ s s' h)
  process-Step (Instruction.update_pool_config_by_governance id min_stake fee_bps) can no_rescue h =
      stay (unwritten-ledger id _ s s' h)
