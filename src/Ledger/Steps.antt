-- ===== src/Ledger/Steps.antt =====
-- Any sequence of staking, administrative and halting instructions, in any order and by any users, with
-- other programs moving lamports in between. The emergency rescue is not a step: Ledger.Rescue treats it.
use dlmm_auto_sell_assets_in.Base.{ℕ, Option, List, arith, ◌≡◌, ◌≢◌, ◌≤◌, subst, sym}
use dlmm_auto_sell_assets_in.Base.Int.{ℤ}
use dlmm_auto_sell_assets_in.Base.Assoc.{Each-lookup}
use dlmm_auto_sell_assets_in.Errors.{ok}
use dlmm_auto_sell_assets_in.State.{Pubkey, StakingPool}
use dlmm_auto_sell_assets_in.Runtime.{Bank, Runtime}
use dlmm_auto_sell_assets_in.Ledger.{
  Ledger, stake, deposit_rewards, claim, unstake, context_of, put_staker,
}
use dlmm_auto_sell_assets_in.Ledger.Inversion.{
  stake-eq, handle_stake-eq, deposit_rewards-eq, claim-eq, unstake-eq,
}
use dlmm_auto_sell_assets_in.Ledger.Consistency.{
  IsConsistent, Claimed-IsConsistent, Unstaked-IsConsistent, staked-IsConsistent,
  deposited-IsConsistent, reconfigured-IsConsistent,
}
use Prim.Native.String.{String}
use dlmm_auto_sell_assets_in.Admin.Changes.{Change, SameReserves, Change-SameReserves}
use dlmm_auto_sell_assets_in.Halt.{HaltContext, AccountInfo, handle_emergency_halt}
use dlmm_auto_sell_assets_in.Halt.Walk.{halted-eq}
use dlmm_auto_sell_assets_in.Staking.Claim.Payout.{IsSound, entitlement, handle_claim-Claimed}
use dlmm_auto_sell_assets_in.Multiplier.{get_multiplier}
use dlmm_auto_sell_assets_in.Staking.Deposit.Accounting.{net_of, handle_deposit-eq}
use dlmm_auto_sell_assets_in.Staking.Unstake.Outcome.{handle_unstake-Unstaked}

-- A key that can sign: neither the reward vault nor the pool, whose addresses have no private key.
abbrev pub CanSign : Runtime → Pubkey → Ledger → Type 0
CanSign rt user l = (user ≢ l.staking_pool.reward_vault) × (user ≢ rt.pool_key)

-- One instruction, or a change of the balances from outside, which cannot take from the two vaults.
pub data Step (rt : Runtime) : Ledger → Ledger → Type 0 where
  staked :
      {l l' : Ledger} (user ata vault : Pubkey) (now : ℤ) (bump amount : ℕ)
      → CanSign rt user l
      → stake rt user ata vault now bump amount l ≡ ok l'
      → Step rt l l'
  deposited :
      {l l' : Ledger} (authority vault treasury : Pubkey) (amount : ℕ)
      → CanSign rt authority l
      → deposit_rewards rt authority vault treasury amount l ≡ ok l'
      → Step rt l l'
  claimed :
      {l l' : Ledger} (user vault : Pubkey) (now : ℤ)
      → CanSign rt user l
      → claim rt user vault now l ≡ ok l'
      → Step rt l l'
  unstaked :
      {l l' : Ledger} (user brain_vault ata vault : Pubkey) (now : ℤ)
      → CanSign rt user l
      → unstake rt user brain_vault ata vault now l ≡ ok l'
      → Step rt l l'
  external :
      {l : Ledger} (bank : Bank)
      → l.bank.lamports l.staking_pool.reward_vault ≤ bank.lamports l.staking_pool.reward_vault
      → (l.bank.tokens l.staking_pool.brain_vault).owner
        ≡ (bank.tokens l.staking_pool.brain_vault).owner
      → (l.bank.tokens l.staking_pool.brain_vault).amount
        ≤ (bank.tokens l.staking_pool.brain_vault).amount
      → Step rt l (record l { bank = bank })
  administered :
      {l : Ledger} {pool : StakingPool} (from_str : String → Option Pubkey) (signer : Pubkey)
      → Change from_str signer l.staking_pool pool
      → Step rt l (record l { staking_pool = pool })
  halted :
      {l : Ledger} {pool : StakingPool} (c : HaltContext) (authority : Pubkey)
      (remaining_accounts : List Pubkey) (accounts accounts' : Pubkey → AccountInfo)
      → handle_emergency_halt c authority remaining_accounts l.staking_pool accounts
        ≡ ok (pool, accounts')
      → Step rt l (record l { staking_pool = pool })

pub data Reach (rt : Runtime) (start : Ledger) : Ledger → Type 0 where
  here : Reach rt start start
  next : {l l' : Ledger} → Reach rt start l → Step rt l l' → Reach rt start l'

-- A halt leaves the reserves.
pub halted-SameReserves :
    (l : Ledger) (pool : StakingPool) (c : HaltContext) (authority : Pubkey)
    (remaining_accounts : List Pubkey) (accounts accounts' : Pubkey → AccountInfo)
    → handle_emergency_halt c authority remaining_accounts l.staking_pool accounts
      ≡ ok (pool, accounts')
    → SameReserves l.staking_pool pool
halted-SameReserves l pool c authority remaining_accounts accounts accounts' h =
    let (_, e) =
      halted-eq c authority remaining_accounts l.staking_pool pool accounts accounts' h in
    ground arith

module _ (rt : Runtime) where
  pub stake-IsConsistent :
      (user ata vault : Pubkey) (now : ℤ) (bump amount : ℕ) (l l' : Ledger)
      → stake rt user ata vault now bump amount l ≡ ok l'
      → IsConsistent l
      → IsConsistent l'
  stake-IsConsistent user ata vault now bump amount l l' h i =
      let (c, free, owned, handled, e) = stake-eq rt user ata vault now bump amount l l' h in
      let (_, _, _, _, _, ce) =
        handle_stake-eq rt user ata now bump amount l.staking_pool l.bank c handled in
      subst IsConsistent e (
        subst (λ x. IsConsistent (put_staker user l x)) (sym ce)
          (staked-IsConsistent rt user now bump amount l c.bank free i))

  deposit_rewards-IsConsistent :
      (authority vault treasury : Pubkey) (amount : ℕ) (l l' : Ledger)
      → deposit_rewards rt authority vault treasury amount l ≡ ok l'
      → IsConsistent l
      → IsConsistent l'
  deposit_rewards-IsConsistent authority vault treasury amount l l' h i =
      let (r, allowed, handled, e) = deposit_rewards-eq rt authority vault treasury amount l l' h in
      let (_, _, _, _, _, pe) =
        handle_deposit-eq rt authority amount l.staking_pool r.0 l.bank r.1 handled in
      subst IsConsistent e (
        subst (λ p. IsConsistent (record l { staking_pool = p; bank = r.1 })) (sym pe)
          (deposited-IsConsistent (net_of amount l.staking_pool) l r.1 i))

  claim-IsConsistent :
      (user vault : Pubkey) (now : ℤ) (l l' : Ledger)
      → claim rt user vault now l ≡ ok l'
      → IsConsistent l
      → IsConsistent l'
  claim-IsConsistent user vault now l l' h i =
      let (s, c, found, owned, handled, e) = claim-eq rt user vault now l l' h in
      let sound =
        Each-lookup (IsSound l.staking_pool.reward_per_share) user s l.stakers i.sound found in
      subst IsConsistent e (
        Claimed-IsConsistent rt user (get_multiplier s.stake_timestamp now)
          (entitlement now l.staking_pool s) l s c found
          (handle_claim-Claimed rt user now (context_of l s) c sound handled) i)

  unstake-IsConsistent :
      (user brain_vault ata vault : Pubkey) (now : ℤ) (l l' : Ledger)
      → unstake rt user brain_vault ata vault now l ≡ ok l'
      → IsConsistent l
      → IsConsistent l'
  unstake-IsConsistent user brain_vault ata vault now l l' h i =
      let (s, r, found, owned, ata_owned, handled, e) =
        unstake-eq rt user brain_vault ata vault now l l' h in
      let sound =
        Each-lookup (IsSound l.staking_pool.reward_per_share) user s l.stakers i.sound found in
      let (mid, u) =
        handle_unstake-Unstaked rt user ata now (context_of l s) r.0 r.1 sound handled in
      subst IsConsistent e (
        Unstaked-IsConsistent rt user ata (get_multiplier s.stake_timestamp now)
          (entitlement now l.staking_pool s) l s r.0 mid r.1 found u i)

  pub Step-IsConsistent : {l l' : Ledger} → Step rt l l' → IsConsistent l → IsConsistent l'
  Step-IsConsistent {l} {l' = l'} (staked user ata vault now bump amount _ h) i =
      stake-IsConsistent user ata vault now bump amount l l' h i
  Step-IsConsistent {l} {l' = l'} (deposited authority vault treasury amount _ h) i =
      deposit_rewards-IsConsistent authority vault treasury amount l l' h i
  Step-IsConsistent {l} {l' = l'} (claimed user vault now _ h) i =
      claim-IsConsistent user vault now l l' h i
  Step-IsConsistent {l} {l' = l'} (unstaked user brain_vault ata vault now _ h) i =
      unstake-IsConsistent user brain_vault ata vault now l l' h i
  Step-IsConsistent (external bank _ _ _) i = record {
    staked = i.staked;
    weight = i.weight;
    sound = i.sound;
  }
  Step-IsConsistent {l} (administered {pool = pool} from_str signer change) i =
      reconfigured-IsConsistent l pool
        (Change-SameReserves from_str signer l.staking_pool pool change) i
  Step-IsConsistent {l} (halted {pool = pool} c authority remaining accounts accounts' h) i =
      reconfigured-IsConsistent l pool
        (halted-SameReserves l pool c authority remaining accounts accounts' h) i

  -- From a consistent start, whatever instructions run, in whatever order: the pool's total stake and total weight are the
  -- sums over the staker accounts, and no staker's debt exceeds the share of its weight.
  pub Reach-IsConsistent :
      {start l : Ledger} → Reach rt start l → IsConsistent start → IsConsistent l
  Reach-IsConsistent here i = i
  Reach-IsConsistent (next r s) i = Step-IsConsistent s (Reach-IsConsistent r i)
