-- ===== src/Ledger/Custody.antt =====
-- The BRAIN vault holds at least what is staked, after any sequence of the instructions of Ledger.Steps.
use dlmm_auto_sell_assets_in.Base.{ℕ, ◌≡◌, ◌≢◌, ◌≤◌, arith, subst, sym, ◌∙◌, ap}
use dlmm_auto_sell_assets_in.Base.Int.{ℤ}
use dlmm_auto_sell_assets_in.Base.Assoc.{Each-lookup, sum_by}
use dlmm_auto_sell_assets_in.Errors.{ok}
use dlmm_auto_sell_assets_in.State.{Pubkey, StakingPool}
use dlmm_auto_sell_assets_in.Admin.Changes.{SameReserves, Change-SameReserves}
use dlmm_auto_sell_assets_in.Runtime.{Runtime, TokenAccount}
use dlmm_auto_sell_assets_in.Runtime.Laws.{IsRuntime}
use dlmm_auto_sell_assets_in.Staking.Claim.Payout.{IsSound, handle_claim-Claimed}
use dlmm_auto_sell_assets_in.Staking.Unstake.Outcome.{handle_unstake-Unstaked}
use dlmm_auto_sell_assets_in.Staking.Deposit.Accounting.{
  fee_of, net_of, handle_deposit-eq, transfer_deposit-tokens,
}
use dlmm_auto_sell_assets_in.Ledger.{
  Ledger, stake, deposit_rewards, claim, unstake, context_of, put_staker,
}
use dlmm_auto_sell_assets_in.Ledger.Inversion.{
  stake-eq, handle_stake-eq, deposit_rewards-eq, claim-eq, unstake-eq,
}
use dlmm_auto_sell_assets_in.Ledger.Consistency.{IsConsistent, staked_of}
use dlmm_auto_sell_assets_in.Ledger.Steps.{
  CanSign, Step, staked, deposited, claimed, unstaked, external, administered, halted,
  halted-SameReserves, Reach, here, next, Reach-IsConsistent,
}

-- The pool owns the BRAIN vault, which holds at least the total stake.
pub record IsCustody (rt : Runtime) (l : Ledger) : Type 0 where
  pub owned : (l.bank.tokens l.staking_pool.brain_vault).owner ≡ rt.pool_key
  pub covered : l.staking_pool.total_staked ≤ (l.bank.tokens l.staking_pool.brain_vault).amount

-- A change of the keys, the bounds or the pause leaves the vault and the total stake.
reconfigured-IsCustody :
    (rt : Runtime) (l : Ledger) (pool : StakingPool)
    → SameReserves l.staking_pool pool
    → IsCustody rt l
    → IsCustody rt (record l { staking_pool = pool })
reconfigured-IsCustody rt l pool same i =
    let vault : pool.brain_vault ≡ l.staking_pool.brain_vault = ground arith in
    let total : pool.total_staked ≡ l.staking_pool.total_staked = ground arith in
    record { owned = rw vault i.owned; covered = rw (vault, total) i.covered }

module _ (rt : Runtime) (laws : IsRuntime rt) where
  pub stake-IsCustody :
      (user ata vault : Pubkey) (now : ℤ) (bump amount : ℕ) (l l' : Ledger)
      → CanSign rt user l
      → stake rt user ata vault now bump amount l ≡ ok l'
      → IsCustody rt l
      → IsCustody rt l'
  stake-IsCustody user ata vault now bump amount l l' can h i =
      let (c, free, owned, handled, e) = stake-eq rt user ata vault now bump amount l l' h in
      let (_, _, _, _, moved, ce) =
        handle_stake-eq rt user ata now bump amount l.staking_pool l.bank c handled in
      let bv = l.staking_pool.brain_vault in
      let ne : ata ≢ bv = λ a. can.1 (sym owned ∙ ap (λ k. (l.bank.tokens k).owner) a ∙ i.owned) in
      let got = (laws.token user).target ata bv amount l.bank c.bank moved ne in
      let kept = (laws.token user).owner_kept ata bv bv amount l.bank c.bank moved in
      subst (IsCustody rt) e (
        subst (λ x. IsCustody rt (put_staker user l x)) (sym ce)
          (record { owned = kept ∙ i.owned; covered = omega (arith, got, i.covered) }))

  unstake-IsCustody :
      (user brain_vault ata vault : Pubkey) (now : ℤ) (l l' : Ledger)
      → CanSign rt user l
      → unstake rt user brain_vault ata vault now l ≡ ok l'
      → IsConsistent l
      → IsCustody rt l
      → IsCustody rt l'
  unstake-IsCustody user brain_vault ata vault now l l' can h con i =
      let (s, r, found, owned, ata_owned, handled, e) =
        unstake-eq rt user brain_vault ata vault now l l' h in
      let sound =
        Each-lookup (IsSound l.staking_pool.reward_per_share) user s l.stakers con.sound found in
      let (mid, u) =
        handle_unstake-Unstaked rt user ata now (context_of l s) r.0 r.1 sound handled in
      let bv = l.staking_pool.brain_vault in
      let ne : bv ≢ ata =
        λ a. can.1 (sym ata_owned ∙ ap (λ k. (l.bank.tokens k).owner) (sym a) ∙ i.owned) in
      let left = (laws.token rt.pool_key).source bv ata s.staked_amount mid r.1 u.returned ne in
      let kept = (laws.token rt.pool_key).owner_kept bv ata bv s.staked_amount mid r.1 u.returned in
      let same : mid.tokens bv ≡ l.bank.tokens bv =
        ap (λ (f : Pubkey → TokenAccount). f bv) u.tokens in
      let same_amount : (mid.tokens bv).amount ≡ (l.bank.tokens bv).amount =
        ap (λ (t : TokenAccount). t.amount) same in
      let v : r.0.brain_vault ≡ bv = ground (arith, u.pool_frame) in
      subst (IsCustody rt) e (record {
        owned = rw v (kept ∙ rw same i.owned);
        covered = rw v omega (arith, left, same_amount, u.stake_removed, i.covered);
      })

  deposit_rewards-IsCustody :
      (authority vault treasury : Pubkey) (amount : ℕ) (l l' : Ledger)
      → deposit_rewards rt authority vault treasury amount l ≡ ok l'
      → IsCustody rt l
      → IsCustody rt l'
  deposit_rewards-IsCustody authority vault treasury amount l l' h i =
      let (r, allowed, handled, e) = deposit_rewards-eq rt authority vault treasury amount l l' h in
      let (_, _, _, _, moved, pe) =
        handle_deposit-eq rt authority amount l.staking_pool r.0 l.bank r.1 handled in
      let same =
        transfer_deposit-tokens rt laws authority l.staking_pool.brain_vault
          (fee_of amount l.staking_pool) (net_of amount l.staking_pool) l.staking_pool l.bank r.1
          moved in
      subst (IsCustody rt) e (
        subst (λ p. IsCustody rt (record l { staking_pool = p; bank = r.1 })) (sym pe)
          (record { owned = rw same i.owned; covered = rw same i.covered }))

  claim-IsCustody :
      (user vault : Pubkey) (now : ℤ) (l l' : Ledger)
      → claim rt user vault now l ≡ ok l'
      → IsConsistent l
      → IsCustody rt l
      → IsCustody rt l'
  claim-IsCustody user vault now l l' h con i =
      let (s, c, found, owned, handled, e) = claim-eq rt user vault now l l' h in
      let sound =
        Each-lookup (IsSound l.staking_pool.reward_per_share) user s l.stakers con.sound found in
      let cl = handle_claim-Claimed rt user now (context_of l s) c sound handled in
      let v : c.staking_pool.brain_vault ≡ l.staking_pool.brain_vault =
        ground (arith, cl.pool_frame) in
      let t : c.staking_pool.total_staked ≡ l.staking_pool.total_staked =
        ground (arith, cl.pool_frame) in
      subst (IsCustody rt) e
        (record { owned = rw (v, cl.tokens) i.owned; covered = rw (v, t, cl.tokens) i.covered })

  Step-IsCustody :
      {l l' : Ledger} → Step rt l l' → IsConsistent l → IsCustody rt l → IsCustody rt l'
  Step-IsCustody {l} {l' = l'} (staked user ata vault now bump amount can h) con i =
      stake-IsCustody user ata vault now bump amount l l' can h i
  Step-IsCustody {l} {l' = l'} (deposited authority vault treasury amount _ h) con i =
      deposit_rewards-IsCustody authority vault treasury amount l l' h i
  Step-IsCustody {l} {l' = l'} (claimed user vault now _ h) con i =
      claim-IsCustody user vault now l l' h con i
  Step-IsCustody {l} {l' = l'} (unstaked user brain_vault ata vault now can h) con i =
      unstake-IsCustody user brain_vault ata vault now l l' can h con i
  Step-IsCustody (external bank _ owner amount) con i = record {
    owned = sym owner ∙ i.owned;
    covered = omega (arith, i.covered);
  }
  Step-IsCustody {l} (administered {pool = pool} from_str signer change) con i =
      reconfigured-IsCustody rt l pool
        (Change-SameReserves from_str signer l.staking_pool pool change) i
  Step-IsCustody {l} (halted {pool = pool} c authority remaining accounts accounts' h) con i =
      reconfigured-IsCustody rt l pool
        (halted-SameReserves l pool c authority remaining accounts accounts' h) i

  -- Over transfers that move what they are asked to and nothing else, from a consistent start whose BRAIN
  -- vault belongs to the pool and holds the total stake, whatever stakes, deposits, claims, unstakes,
  -- administrative instructions and halts run, signed by users who are neither the reward vault nor the pool,
  -- and with changes of the balances in between that take nothing from the two vaults; the emergency rescue
  -- is not among these instructions. Then the vault still belongs to the pool and holds at least the total
  -- stake, which is the sum of what the staker accounts record.
  pub stakes_covered :
      {start l : Ledger}
      → Reach rt start l
      → IsConsistent start
      → IsCustody rt start
      → IsCustody rt l × (l.staking_pool.total_staked ≡ sum_by staked_of l.stakers)
  stakes_covered here con i = (i, con.staked)
  stakes_covered (next r s) con i =
      let before = stakes_covered r con i in
      (
        Step-IsCustody s (Reach-IsConsistent rt r con) before.0,
        (Reach-IsConsistent rt (next r s) con).staked,
      )
