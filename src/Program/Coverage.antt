-- ===== src/Program/Coverage.antt =====
-- Any sequence of the program's instructions from its initialization, and what its pool then holds.
use dlmm_auto_sell_assets_in.Base.{ℕ, ◌+◌, ◌≡◌, ◌≢◌, ◌≤◌, inl, inr, arith, sym, subst, [], none}
use dlmm_auto_sell_assets_in.Base.Assoc.{sum_by}
use dlmm_auto_sell_assets_in.Errors.{ok}
use dlmm_auto_sell_assets_in.State.{Pubkey, StakingPool}
use dlmm_auto_sell_assets_in.Runtime.{Bank, Runtime}
use dlmm_auto_sell_assets_in.Runtime.Laws.{IsRuntime}
use dlmm_auto_sell_assets_in.Admin.Changes.{IsConfigured}
use dlmm_auto_sell_assets_in.Halt.{AccountInfo}
use dlmm_auto_sell_assets_in.Staking.Initialize.{InitializeAccounts, handle_initialize}
use dlmm_auto_sell_assets_in.Staking.Unstake.Outcome.{earned}
use dlmm_auto_sell_assets_in.Ledger.{Ledger}
use dlmm_auto_sell_assets_in.Ledger.Steps.{CanSign, external, Reach, here, next}
use dlmm_auto_sell_assets_in.Ledger.Solvency.{vault_of}
use dlmm_auto_sell_assets_in.Ledger.Conservation.{all_changes, changes}
use dlmm_auto_sell_assets_in.Ledger.Consistency.{staked_of}
use dlmm_auto_sell_assets_in.Ledger.Genesis.{genesis, pool_covered}
use dlmm_auto_sell_assets_in.Ledger.Rescue.{rescue_never}
use dlmm_auto_sell_assets_in.Program.{Framework, Environment, Program, pool_of}
use dlmm_auto_sell_assets_in.Program.Instruction
use dlmm_auto_sell_assets_in.Program.Dispatch.{process}
use dlmm_auto_sell_assets_in.Program.Refinement.{claims_of}
use dlmm_auto_sell_assets_in.Program.Runs.{process-Step}

-- The program after the initialization of its pool: no staker, no settings, no proposal.
abbrev pub launched : StakingPool → Bank → (Pubkey → AccountInfo) → Program
launched pool bank accounts = record {
  ledger = genesis pool bank;
  governance_config = none;
  elections = [];
  accounts = accounts;
}

abbrev with_bank : Bank → Program → Program
with_bank bank s = record s { ledger = record (s.ledger) { bank = bank } }

-- Instructions, by signers that are neither the reward vault nor the pool, whose key is not that of the
-- BRAIN vault, and changes of the balances from outside, which cannot take from the two vaults.
pub data Run (fw : Framework) (start : Program) : Program → Type 0 where
  begun : Run fw start start
  processed :
      {s s' : Program} (env : Environment) (i : Instruction.Instruction)
      → Run fw start s
      → CanSign fw.runtime env.signer s.ledger
      → fw.runtime.pool_key ≢ (pool_of s).brain_vault
      → process fw env i s ≡ ok s'
      → Run fw start s'
  outside :
      {s : Program} (bank : Bank)
      → Run fw start s
      → s.ledger.bank.lamports (pool_of s).reward_vault ≤ bank.lamports (pool_of s).reward_vault
      → (s.ledger.bank.tokens (pool_of s).brain_vault).owner
        ≡ (bank.tokens (pool_of s).brain_vault).owner
      → (s.ledger.bank.tokens (pool_of s).brain_vault).amount
        ≤ (bank.tokens (pool_of s).brain_vault).amount
      → Run fw start (with_bank bank s)

-- How many claims a run has.
unfoldable pub claims : {fw : Framework} {start s : Program} → Run fw start s → ℕ
claims begun = 0
claims (processed env i r _ _ _) = claims r + claims_of i
claims (outside bank r _ _ _) = claims r

-- What a run of the program does to the pool, the stakers and the balances is a run of Ledger.
abbrev Covers : Runtime → Ledger → Ledger → ℕ → Type 0
Covers rt start l n = (r : Reach rt start l) × (all_changes r ≤ n)

module _ (fw : Framework) (laws : IsRuntime fw.runtime)
    (checked : (authority from to : Pubkey) (n : ℕ) (b b' : Bank)
      → fw.runtime.token_transfer authority from to n b ≡ ok b'
      → (b.tokens from).owner ≡ authority)
    (a : InitializeAccounts) (crank : Pubkey) (fee_bps min_stake : ℕ) (pool : StakingPool)
    (bank : Bank) (accounts : Pubkey → AccountInfo)
    (initialized : handle_initialize a crank fee_bps min_stake ≡ ok pool)
    (owned : (bank.tokens a.brain_vault).owner ≡ fw.runtime.pool_key) where
  Run-Reach :
      {s : Program} (run : Run fw (launched pool bank accounts) s)
      → Covers fw.runtime (genesis pool bank) s.ledger (claims run)
  unfolding claims all_changes changes
  Run-Reach begun = (here, omega arith)
  Run-Reach (processed {s = s} {s' = s'} env i run can apart h) =
      let (r, few) = Run-Reach run in
      let no_rescue = λ (ata brain_vault reward_vault : Pubkey) (l : Ledger).
        rescue_never fw.runtime laws checked a crank fee_bps min_stake pool bank env.signer ata
          brain_vault reward_vault l initialized owned r apart in
      elim (process-Step fw env s s' i can no_rescue h) [
        | inl same ↦
            subst (λ l. Covers fw.runtime (genesis pool bank) l (claims run + claims_of i))
              (sym same) (r, omega (arith, few))
        | inr (step, bound) ↦ (next r step, omega (arith, few, bound))
      ]
  Run-Reach (outside bank' run lamports owner amount) =
      let (r, few) = Run-Reach run in
      (next r (external bank' lamports owner amount), omega (arith, few))

  -- Over token transfers that need the authority of the source account, and transfers that move what they
  -- are asked to and nothing else; from the initialization of a pool whose new BRAIN vault belongs to it;
  -- and whatever instructions but reallocations run then, in any order and by any signers that are neither
  -- the reward vault nor the pool, whose key is not that of the BRAIN vault: the fee is at most five per
  -- cent and the minimum stake positive; what the stakers have earned and not been paid is at most the
  -- lamports in the reward vault and one for each claim; and the BRAIN vault holds at least the total
  -- stake, which is the sum of what the stakers have staked.
  pub program_covered :
      {s : Program} (run : Run fw (launched pool bank accounts) s)
      → IsConfigured (pool_of s)
        × (sum_by (earned (pool_of s)) s.ledger.stakers ≤ vault_of s.ledger + claims run)
        × ((pool_of s).total_staked ≤ (s.ledger.bank.tokens (pool_of s).brain_vault).amount)
        × ((pool_of s).total_staked ≡ sum_by staked_of s.ledger.stakers)
  program_covered run =
      let (r, few) = Run-Reach run in
      let (configured, earned_bound, held, total) =
        pool_covered fw.runtime laws a crank fee_bps min_stake pool bank initialized owned r in
      (configured, omega (arith, earned_bound, few), held, total)
