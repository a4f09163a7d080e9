-- ===== src/Ledger/Solvency.antt =====
-- The reward vault covers what the stakers have earned, up to a lamport for each change of tier.
use dlmm_auto_sell_assets_in.Base.{
  ℕ, ◌+◌, ◌-◌, ◌*◌, ◌/◌, ◌≡◌, ◌≤◌, arith, subst, sym, Option, some, none, ◌==◌, if◌then◌else◌,
}
use dlmm_auto_sell_assets_in.Base.Int.{ℤ}
use dlmm_auto_sell_assets_in.Base.Numbers.{div-mul-le}
use dlmm_auto_sell_assets_in.Base.Assoc.{
  lookup, erase, sum_by, Each-erase, sum_by-insert, sum_by-erase,
}
use dlmm_auto_sell_assets_in.Constants.{precision}
use dlmm_auto_sell_assets_in.State.{Pubkey, StakingPool, StakerAccount}
use dlmm_auto_sell_assets_in.Admin.Changes.{SameReserves}
use dlmm_auto_sell_assets_in.Runtime.{Bank, Runtime}
use dlmm_auto_sell_assets_in.Runtime.Laws.{IsRuntime}
use dlmm_auto_sell_assets_in.Multiplier.{get_multiplier}
use dlmm_auto_sell_assets_in.Rewards.{StakerContext}
use dlmm_auto_sell_assets_in.Rewards.Shares.{weight_of}
use dlmm_auto_sell_assets_in.Staking.Claim.Payout.{IsSound, Claimed}
use dlmm_auto_sell_assets_in.Staking.Unstake.Outcome.{earned, Unstaked}
use dlmm_auto_sell_assets_in.Staking.Deposit.Accounting.{deposited_pool}
use dlmm_auto_sell_assets_in.Ledger.{Ledger, context_of, put_staker}
use dlmm_auto_sell_assets_in.Ledger.Consistency.{IsConsistent, Unstaked-IsConsistent}
use dlmm_auto_sell_assets_in.Ledger.Liabilities.{
  liability, debt-le, liabilities-grow, Claimed-liability,
}

abbrev pub vault_of : Ledger → ℕ
vault_of l = l.bank.lamports l.staking_pool.reward_vault

abbrev pub liabilities : Ledger → ℕ
liabilities l = sum_by (liability l.staking_pool.reward_per_share) l.stakers

-- The vault covers the liabilities, up to `slack` lamports.
abbrev pub IsSolvent : ℕ → Ledger → Type 0
IsSolvent slack l = liabilities l ≤ precision * (vault_of l + slack)

-- Whether a claim by `user` at `now` changes the tier of the stake.
abbrev pub tier_change : Option StakerAccount → ℤ → ℕ
tier_change none now = 0
tier_change (some s) now =
    if get_multiplier s.stake_timestamp now == s.current_multiplier then 0 else 1

-- A change of the keys, the bounds or the pause leaves the vault and the liabilities.
pub reconfigured-IsSolvent :
    (slack : ℕ) (l : Ledger) (pool : StakingPool)
    → SameReserves l.staking_pool pool
    → IsSolvent slack l
    → IsSolvent slack (record l { staking_pool = pool })
reconfigured-IsSolvent slack l pool same h =
    let rps : pool.reward_per_share ≡ l.staking_pool.reward_per_share = ground arith in
    let vault : pool.reward_vault ≡ l.staking_pool.reward_vault = ground arith in rw (rps, vault) h

module _ (rt : Runtime) (laws : IsRuntime rt) where
  pub Claimed-IsSolvent :
      (user : Pubkey) (n total slack : ℕ) (l : Ledger) (s : StakerAccount) (c : StakerContext)
      → lookup user l.stakers ≡ some s
      → IsSound l.staking_pool.reward_per_share s
      → Claimed rt user n total (context_of l s) c
      → IsSolvent slack l
      → IsSolvent (slack + (if n == s.current_multiplier then 0 else 1)) (put_staker user l c)
  Claimed-IsSolvent user n total slack l s c found sound cl h =
      let e : c.staking_pool.reward_per_share ≡ l.staking_pool.reward_per_share =
        ground (arith, cl.pool_frame) in
      let v : c.staking_pool.reward_vault ≡ l.staking_pool.reward_vault =
        ground (arith, cl.pool_frame) in
      let paid = Claimed-liability rt user n total (context_of l s) c sound cl in
      let total' =
        sum_by-insert (liability l.staking_pool.reward_per_share) user s c.staker_account l.stakers
          found in
      rw (e, v) (ground (arith, paid, total', h, cl.vault_bound))

  pub deposited-IsSolvent :
      (net slack : ℕ) (l : Ledger) (bank : Bank)
      → IsConsistent l
      → vault_of l + net ≤ bank.lamports l.staking_pool.reward_vault
      → IsSolvent slack l
      → IsSolvent slack (record l { staking_pool = deposited_pool net l.staking_pool; bank = bank })
  deposited-IsSolvent net slack l bank i gain h =
      let grow =
        liabilities-grow l.staking_pool.reward_per_share
          (net * precision / l.staking_pool.total_weighted_stake) l.stakers i.sound in
      let bound = div-mul-le (net * precision) l.staking_pool.total_weighted_stake in
      let scaled : net
            * precision
            / l.staking_pool.total_weighted_stake
            * sum_by weight_of l.stakers
          ≤ net * precision =
        rw (← i.weight) bound in
      omega (arith, grow)

  -- What is left of the liabilities when a staker leaves.
  Unstaked-liabilities :
      (user ata : Pubkey) (n total : ℕ) (l : Ledger) (s : StakerAccount) (pool : StakingPool)
      (mid bank : Bank)
      → lookup user l.stakers ≡ some s
      → IsConsistent l
      → IsSound l.staking_pool.reward_per_share s
      → Unstaked rt user ata n total (context_of l s) pool mid bank
      → sum_by (liability pool.reward_per_share) (erase user l.stakers)
          + precision * earned l.staking_pool s
        ≤ liabilities l + (earned l.staking_pool s - total) * precision
  Unstaked-liabilities user ata n total l s pool mid bank found i sound u =
      let rps = l.staking_pool.reward_per_share in
      let inc = pool.reward_per_share - rps in
      let e : pool.reward_per_share ≡ rps + inc = omega (arith, u.grows) in
      let left = Each-erase (IsSound rps) user l.stakers i.sound in
      let grow = liabilities-grow rps inc (erase user l.stakers) left in
      let gone = sum_by-erase (liability rps) user s l.stakers found in
      let w = (Unstaked-IsConsistent rt user ata n total l s pool mid bank found u i).weight in
      let growth : inc * sum_by weight_of (erase user l.stakers)
          ≤ (earned l.staking_pool s - total) * precision =
        rw (← w) u.growth in
      subst
        (λ r.
          sum_by (liability r) (erase user l.stakers) + precision * earned l.staking_pool s
          ≤ liabilities l + (earned l.staking_pool s - total) * precision)
        (sym e) (omega (arith, grow, gone, growth, debt-le rps s sound))

  -- An unstake lowers the liabilities by at least what it pays.
  pub Unstaked-IsSolvent :
      (user ata : Pubkey) (n total slack : ℕ) (l : Ledger) (s : StakerAccount) (pool : StakingPool)
      (mid bank : Bank)
      → lookup user l.stakers ≡ some s
      → IsConsistent l
      → IsSound l.staking_pool.reward_per_share s
      → total ≤ earned l.staking_pool s
      → Unstaked rt user ata n total (context_of l s) pool mid bank
      → IsSolvent slack l
      → IsSolvent slack
          (record { staking_pool = pool; stakers = erase user l.stakers; bank = bank })
  Unstaked-IsSolvent user ata n total slack l s pool mid bank found i sound le u h =
      let lower = Unstaked-liabilities user ata n total l s pool mid bank found i sound u in
      let v : pool.reward_vault ≡ l.staking_pool.reward_vault = ground (arith, u.pool_frame) in
      let kept : bank.lamports l.staking_pool.reward_vault
          ≡ mid.lamports l.staking_pool.reward_vault =
        (laws.token rt.pool_key).lamports_kept l.staking_pool.brain_vault ata
          l.staking_pool.reward_vault s.staked_amount mid bank u.returned in
      rw v (omega (arith, lower, kept, u.vault_bound))
