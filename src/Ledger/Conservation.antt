-- ===== src/Ledger/Conservation.antt =====
-- Reward conservation over any sequence of the instructions of Ledger.Steps.
use dlmm_auto_sell_assets_in.Base.{ℕ, ◌+◌, ◌*◌, ◌≡◌, ◌≤◌, arith, subst, sym, some, [], ◌∷◌}
use native.Mathlib.Nat.{add-zero, add_assoc}
use dlmm_auto_sell_assets_in.Base.Int.{ℤ}
use dlmm_auto_sell_assets_in.Base.Assoc.{
  Assoc, lookup, sum_by, Each, Each-lookup, sum_by-insert_new,
}
use dlmm_auto_sell_assets_in.Errors.{ok}
use dlmm_auto_sell_assets_in.Constants.{precision}
use dlmm_auto_sell_assets_in.State.{Pubkey, StakingPool, StakerAccount}
use dlmm_auto_sell_assets_in.Admin.Changes.{Change-SameReserves}
use dlmm_auto_sell_assets_in.Runtime.{Runtime}
use dlmm_auto_sell_assets_in.Runtime.Laws.{IsRuntime}
use dlmm_auto_sell_assets_in.Multiplier.{get_multiplier}
use dlmm_auto_sell_assets_in.Staking.Stake.{new_staker}
use dlmm_auto_sell_assets_in.Staking.Claim.Payout.{IsSound, entitlement, handle_claim-Claimed}
use dlmm_auto_sell_assets_in.Staking.Unstake.Outcome.{earned, handle_unstake-Unstaked}
use dlmm_auto_sell_assets_in.Staking.Deposit.Accounting.{
  fee_of, net_of, handle_deposit-eq, transfer_deposit-vault,
}
use dlmm_auto_sell_assets_in.Ledger.{
  Ledger, stake, deposit_rewards, claim, unstake, context_of, put_staker,
}
use dlmm_auto_sell_assets_in.Ledger.Inversion.{
  stake-eq, handle_stake-eq, deposit_rewards-eq, claim-eq, unstake-eq,
}
use dlmm_auto_sell_assets_in.Ledger.Consistency.{IsConsistent}
use dlmm_auto_sell_assets_in.Ledger.Steps.{
  CanSign, Step, staked, deposited, claimed, unstaked, external, administered, halted,
  halted-SameReserves, Reach, here, next, Reach-IsConsistent,
}
use dlmm_auto_sell_assets_in.Ledger.Liabilities.{liability, debt-le}
use dlmm_auto_sell_assets_in.Ledger.Solvency.{
  vault_of, IsSolvent, tier_change, Claimed-IsSolvent, deposited-IsSolvent, Unstaked-IsSolvent,
  reconfigured-IsSolvent,
}

-- The changes of tier that a step makes by a claim.
unfoldable pub changes : {rt : Runtime} {l l' : Ledger} → Step rt l l' → ℕ
changes {l} (claimed user vault now _ _) = tier_change (lookup user l.stakers) now
changes (staked _ _ _ _ _ _ _ _) = 0
changes (deposited _ _ _ _ _ _) = 0
changes (unstaked _ _ _ _ _ _ _) = 0
changes (external _ _ _ _) = 0
changes (administered _ _ _) = 0
changes (halted _ _ _ _ _ _) = 0

unfoldable pub all_changes : {rt : Runtime} {start l : Ledger} → Reach rt start l → ℕ
all_changes here = 0
all_changes (next r s) = all_changes r + changes s

module _ (rt : Runtime) (laws : IsRuntime rt) (slack : ℕ) where
  stake-IsSolvent :
      (user ata vault : Pubkey) (now : ℤ) (bump amount : ℕ) (l l' : Ledger)
      → stake rt user ata vault now bump amount l ≡ ok l'
      → IsSolvent slack l
      → IsSolvent slack l'
  stake-IsSolvent user ata vault now bump amount l l' h i =
      let (c, free, owned, handled, e) = stake-eq rt user ata vault now bump amount l l' h in
      let (_, _, _, _, moved, ce) =
        handle_stake-eq rt user ata now bump amount l.staking_pool l.bank c handled in
      let kept =
        (laws.token user).lamports_kept ata l.staking_pool.brain_vault l.staking_pool.reward_vault
          amount l.bank c.bank moved in
      let total =
        sum_by-insert_new (liability l.staking_pool.reward_per_share) user
          (new_staker user amount now bump) l.stakers free in
      subst (IsSolvent slack) e
        (subst (λ x. IsSolvent slack (put_staker user l x)) (sym ce) (omega (arith, kept, total)))

  deposit_rewards-IsSolvent :
      (authority vault treasury : Pubkey) (amount : ℕ) (l l' : Ledger)
      → IsConsistent l
      → CanSign rt authority l
      → deposit_rewards rt authority vault treasury amount l ≡ ok l'
      → IsSolvent slack l
      → IsSolvent slack l'
  deposit_rewards-IsSolvent authority vault treasury amount l l' i can h solvent =
      let (r, allowed, handled, e) = deposit_rewards-eq rt authority vault treasury amount l l' h in
      let (_, _, _, _, moved, pe) =
        handle_deposit-eq rt authority amount l.staking_pool r.0 l.bank r.1 handled in
      let gain =
        transfer_deposit-vault rt laws authority (fee_of amount l.staking_pool)
          (net_of amount l.staking_pool) l.staking_pool l.bank r.1 can.0 moved in
      subst (IsSolvent slack) e (
        subst (λ p. IsSolvent slack (record l { staking_pool = p; bank = r.1 })) (sym pe)
          (deposited-IsSolvent rt laws (net_of amount l.staking_pool) slack l r.1 i gain solvent))

  claim-IsSolvent :
      (user vault : Pubkey) (now : ℤ) (l l' : Ledger)
      → IsConsistent l
      → claim rt user vault now l ≡ ok l'
      → IsSolvent slack l
      → IsSolvent (slack + tier_change (lookup user l.stakers) now) l'
  claim-IsSolvent user vault now l l' i h solvent =
      let (s, c, found, owned, handled, e) = claim-eq rt user vault now l l' h in
      let sound =
        Each-lookup (IsSound l.staking_pool.reward_per_share) user s l.stakers i.sound found in
      rw found (
        subst (IsSolvent (slack + tier_change (some s) now)) e (
          Claimed-IsSolvent rt laws user (get_multiplier s.stake_timestamp now)
            (entitlement now l.staking_pool s) slack l s c found sound
            (handle_claim-Claimed rt user now (context_of l s) c sound handled) solvent))

  unstake-IsSolvent :
      (user brain_vault ata vault : Pubkey) (now : ℤ) (l l' : Ledger)
      → IsConsistent l
      → unstake rt user brain_vault ata vault now l ≡ ok l'
      → IsSolvent slack l
      → IsSolvent slack l'
  unstake-IsSolvent user brain_vault ata vault now l l' i h solvent =
      let (s, r, found, owned, ata_owned, handled, e) =
        unstake-eq rt user brain_vault ata vault now l l' h in
      let sound =
        Each-lookup (IsSound l.staking_pool.reward_per_share) user s l.stakers i.sound found in
      let (mid, u) =
        handle_unstake-Unstaked rt user ata now (context_of l s) r.0 r.1 sound handled in
      subst (IsSolvent slack) e (
        Unstaked-IsSolvent rt laws user ata (get_multiplier s.stake_timestamp now)
          (entitlement now l.staking_pool s) slack l s r.0 mid r.1 found i sound (ground arith) u
          solvent)

module _ (rt : Runtime) (laws : IsRuntime rt) where
  Step-IsSolvent :
      (slack : ℕ) {l l' : Ledger} (s : Step rt l l')
      → IsConsistent l
      → IsSolvent slack l
      → IsSolvent (slack + changes s) l'
  unfolding changes
  Step-IsSolvent slack {l} {l' = l'} (staked user ata vault now bump amount _ h) i solvent =
      rw add-zero (stake-IsSolvent rt laws slack user ata vault now bump amount l l' h solvent)
  Step-IsSolvent slack {l} {l' = l'} (deposited authority vault treasury amount can h) i solvent =
      rw add-zero (
        deposit_rewards-IsSolvent rt laws slack authority vault treasury amount l l' i can h
          solvent)
  Step-IsSolvent slack {l} {l' = l'} (claimed user vault now _ h) i solvent =
      claim-IsSolvent rt laws slack user vault now l l' i h solvent
  Step-IsSolvent slack {l} {l' = l'} (unstaked user brain_vault ata vault now _ h) i solvent =
      rw add-zero (unstake-IsSolvent rt laws slack user brain_vault ata vault now l l' i h solvent)
  Step-IsSolvent slack (external bank le _ _) i solvent = omega arith
  Step-IsSolvent slack {l} (administered {pool = pool} from_str signer change) i solvent =
      rw add-zero (
        reconfigured-IsSolvent slack l pool
          (Change-SameReserves from_str signer l.staking_pool pool change) solvent)
  Step-IsSolvent slack {l} (halted {pool = pool} c authority remaining accounts accounts' h) i
        solvent =
      rw add-zero (
        reconfigured-IsSolvent slack l pool
          (halted-SameReserves l pool c authority remaining accounts accounts' h) solvent)

  -- Whatever instructions run: if the vault covers the liabilities up to `slack` lamports, it still
  -- does, up to one more lamport for each claim that changed the claimant's tier.
  pub Reach-IsSolvent :
      (slack : ℕ) {start l : Ledger} (r : Reach rt start l)
      → IsConsistent start
      → IsSolvent slack start
      → IsSolvent (slack + all_changes r) l
  unfolding all_changes
  Reach-IsSolvent slack here i solvent = rw add-zero solvent
  Reach-IsSolvent slack {start} (next {l = l} r s) i solvent =
      let before : IsSolvent (slack + all_changes r) l = Reach-IsSolvent slack r i solvent in
      rw (← add_assoc slack (all_changes r) (changes s))
        (Step-IsSolvent (slack + all_changes r) s (Reach-IsConsistent rt r i) before)

-- What the stakers have earned, in lamports, is within the liabilities.
earned-le-liabilities :
    (pool : StakingPool) (m : Assoc StakerAccount)
    → Each (IsSound pool.reward_per_share) m
    → precision * sum_by (earned pool) m ≤ sum_by (liability pool.reward_per_share) m
earned-le-liabilities pool [] h = omega arith
earned-le-liabilities pool ((k, s) ∷ m) h =
    omega (arith, h.0, earned-le-liabilities pool m h.1, debt-le pool.reward_per_share s h.0)

-- Over transfers that move what they are asked to and nothing else, from a consistent start whose vault
-- covers its liabilities, whatever stakes, deposits, claims, unstakes, administrative instructions and halts
-- run, signed by users who are neither the reward vault nor the pool, and with changes of the balances in
-- between that take nothing from the two vaults; the emergency rescue is not among these instructions.
-- Then all that the stakers have earned and not been paid is at most the lamports in the vault and one more
-- for each claim that changed the claimant's tier.
pub rewards_covered :
    (rt : Runtime)
    → IsRuntime rt
    → {start l : Ledger} (r : Reach rt start l) → IsConsistent start
    → IsSolvent 0 start
    → sum_by (earned l.staking_pool) l.stakers ≤ vault_of l + all_changes r
rewards_covered rt laws {start} {l = l} r i solvent =
    let end_solvent : IsSolvent (0 + all_changes r) l = Reach-IsSolvent rt laws 0 r i solvent in
    let bound = earned-le-liabilities l.staking_pool l.stakers (Reach-IsConsistent rt r i).sound in
    omega (arith, end_solvent, bound)
