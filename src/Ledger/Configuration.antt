-- ===== src/Ledger/Configuration.antt =====
-- The fee and the minimum stake of the pool over any sequence of instructions.
use dlmm_auto_sell_assets_in.Base.{◌≡◌, arith, subst}
use dlmm_auto_sell_assets_in.Base.Int.{ℤ}
use dlmm_auto_sell_assets_in.Base.Assoc.{Each-lookup}
use dlmm_auto_sell_assets_in.Errors.{ok}
use dlmm_auto_sell_assets_in.State.{Pubkey}
use dlmm_auto_sell_assets_in.Runtime.{Runtime}
use dlmm_auto_sell_assets_in.Admin.Changes.{IsConfigured, kept-IsConfigured, Change-IsConfigured}
use dlmm_auto_sell_assets_in.Halt.Walk.{halted-eq}
use dlmm_auto_sell_assets_in.Staking.Claim.Payout.{IsSound, handle_claim-Claimed}
use dlmm_auto_sell_assets_in.Staking.Unstake.Outcome.{handle_unstake-Unstaked}
use dlmm_auto_sell_assets_in.Staking.Deposit.Accounting.{handle_deposit-eq}
use dlmm_auto_sell_assets_in.Ledger.{Ledger, claim, unstake, context_of}
use dlmm_auto_sell_assets_in.Ledger.Inversion.{
  stake-eq, handle_stake-eq, deposit_rewards-eq, claim-eq, unstake-eq,
}
use dlmm_auto_sell_assets_in.Ledger.Consistency.{IsConsistent}
use dlmm_auto_sell_assets_in.Ledger.Steps.{
  Step, staked, deposited, claimed, unstaked, external, administered, halted, Reach, here, next,
  Reach-IsConsistent,
}

abbrev IsBounded : Ledger → Type 0
IsBounded l = IsConfigured l.staking_pool

module _ (rt : Runtime) where
  claim-IsBounded :
      (user vault : Pubkey) (now : ℤ) (l l' : Ledger)
      → claim rt user vault now l ≡ ok l'
      → IsConsistent l
      → IsBounded l
      → IsBounded l'
  claim-IsBounded user vault now l l' h con i =
      let (s, c, found, owned, handled, e) = claim-eq rt user vault now l l' h in
      let sound =
        Each-lookup (IsSound l.staking_pool.reward_per_share) user s l.stakers con.sound found in
      let cl = handle_claim-Claimed rt user now (context_of l s) c sound handled in
      subst IsBounded e (
        kept-IsConfigured l.staking_pool c.staking_pool i (ground (arith, cl.pool_frame))
          (ground (arith, cl.pool_frame)))

  unstake-IsBounded :
      (user brain_vault ata vault : Pubkey) (now : ℤ) (l l' : Ledger)
      → unstake rt user brain_vault ata vault now l ≡ ok l'
      → IsConsistent l
      → IsBounded l
      → IsBounded l'
  unstake-IsBounded user brain_vault ata vault now l l' h con i =
      let (s, r, found, owned, ata_owned, handled, e) =
        unstake-eq rt user brain_vault ata vault now l l' h in
      let sound =
        Each-lookup (IsSound l.staking_pool.reward_per_share) user s l.stakers con.sound found in
      let (mid, u) =
        handle_unstake-Unstaked rt user ata now (context_of l s) r.0 r.1 sound handled in
      subst IsBounded e (
        kept-IsConfigured l.staking_pool r.0 i (ground (arith, u.pool_frame))
          (ground (arith, u.pool_frame)))

  Step-IsBounded : {l l' : Ledger} → Step rt l l' → IsConsistent l → IsBounded l → IsBounded l'
  Step-IsBounded {l} {l' = l'} (staked user ata vault now bump amount _ h) con i =
      let (c, _, _, handled, e) = stake-eq rt user ata vault now bump amount l l' h in
      let (_, _, _, _, _, ce) =
        handle_stake-eq rt user ata now bump amount l.staking_pool l.bank c handled in
      subst IsBounded e
        (kept-IsConfigured l.staking_pool c.staking_pool i (ground arith) (ground arith))
  Step-IsBounded {l} {l' = l'} (deposited authority vault treasury amount _ h) con i =
      let (r, _, handled, e) = deposit_rewards-eq rt authority vault treasury amount l l' h in
      let (_, _, _, _, _, pe) =
        handle_deposit-eq rt authority amount l.staking_pool r.0 l.bank r.1 handled in
      subst IsBounded e (kept-IsConfigured l.staking_pool r.0 i (ground arith) (ground arith))
  Step-IsBounded {l} {l' = l'} (claimed user vault now _ h) con i =
      claim-IsBounded user vault now l l' h con i
  Step-IsBounded {l} {l' = l'} (unstaked user brain_vault ata vault now _ h) con i =
      unstake-IsBounded user brain_vault ata vault now l l' h con i
  Step-IsBounded (external bank _ _ _) con i = i
  Step-IsBounded {l} (administered {pool = pool} from_str signer change) con i =
      Change-IsConfigured from_str signer l.staking_pool pool change i
  Step-IsBounded {l} (halted {pool = pool} c authority remaining accounts accounts' h) con i =
      let (_, e) = halted-eq c authority remaining l.staking_pool pool accounts accounts' h in
      kept-IsConfigured l.staking_pool pool i (ground arith) (ground arith)

  pub Reach-IsConfigured :
      {start l : Ledger}
      → Reach rt start l
      → IsConsistent start
      → IsConfigured start.staking_pool
      → IsConfigured l.staking_pool
  Reach-IsConfigured here con i = i
  Reach-IsConfigured (next r s) con i =
      Step-IsBounded s (Reach-IsConsistent rt r con) (Reach-IsConfigured r con i)
