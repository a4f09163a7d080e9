-- ===== src/Ledger/Dormancy.antt =====
-- A stake whose owner has not claimed since: it keeps the multiplier 0 of stake.rs, however old it gets.
use dlmm_auto_sell_assets_in.Base.{
  ℕ, ◌+◌, ◌≡◌, ◌≢◌, arith, refl, sym, ap, subst, ◌∙◌, some, ◌==◌, Bool-cases, inl, inr,
}
use dlmm_auto_sell_assets_in.Base.Int.{ℤ}
use dlmm_auto_sell_assets_in.Base.Assoc.{lookup, erase}
use dlmm_auto_sell_assets_in.Errors.{ok}
use dlmm_auto_sell_assets_in.State.{Pubkey, StakingPool}
use dlmm_auto_sell_assets_in.Runtime.{Runtime}
use dlmm_auto_sell_assets_in.Runtime.Laws.{IsRuntime}
use dlmm_auto_sell_assets_in.Multiplier.{get_multiplier}
use dlmm_auto_sell_assets_in.Staking.Stake.{new_staker}
use dlmm_auto_sell_assets_in.Staking.Claim.Payout.{entitlement}
use dlmm_auto_sell_assets_in.Staking.Unstake.{handle_unstake}
use dlmm_auto_sell_assets_in.Staking.Unstake.Effect.{unstake_pays}
use dlmm_auto_sell_assets_in.Ledger.{Ledger, stake, unstake, context_of}
use dlmm_auto_sell_assets_in.Ledger.Inversion.{unstake-eq}
use dlmm_auto_sell_assets_in.Ledger.Consistency.{IsConsistent}
use dlmm_auto_sell_assets_in.Ledger.Steps.{CanSign, Reach, stake-IsConsistent}
use dlmm_auto_sell_assets_in.Ledger.Custody.{IsCustody, stake-IsCustody, stakes_covered}

-- A stake on which nothing was claimed is owed nothing, whatever was deposited and at any time.
untouched-entitlement :
    (user : Pubkey) (amount bump : ℕ) (since now : ℤ) (pool : StakingPool)
    → entitlement now pool (new_staker user amount since bump) ≡ 0
untouched-entitlement user amount bump since now pool =
    elim (Bool-cases (get_multiplier since now == 0)) [
      | inl early ↦ rw early refl
      | inr late ↦ rw late (omega arith)
    ]

-- A user stakes, from a consistent ledger whose BRAIN vault belongs to the pool; whatever instructions run
-- then, and however long, as long as the user's account is as the stake left it; and then the user unstakes.
-- The whole stake comes back to the user's token account and leaves the totals, and no reward is paid:
-- the balances of the user and of the reward vault stay, and so does the pool's weight.
pub untouched_stake_returns :
    (rt : Runtime)
    → IsRuntime rt
    → (user ata vault : Pubkey) (since : ℤ) (bump amount : ℕ) (l l1 l2 l3 : Ledger)
      (ata' brain_vault reward_vault : Pubkey) (now : ℤ)
    → IsConsistent l
    → IsCustody rt l
    → CanSign rt user l
    → stake rt user ata vault since bump amount l ≡ ok l1
    → Reach rt l1 l2
    → CanSign rt user l2
    → lookup user l2.stakers ≡ some (new_staker user amount since bump)
    → unstake rt user brain_vault ata' reward_vault now l2 ≡ ok l3
    → ((l3.bank.tokens ata').amount ≡ (l2.bank.tokens ata').amount + amount)
      × (l3.bank.lamports user ≡ l2.bank.lamports user)
      × (l3.bank.lamports l2.staking_pool.reward_vault
          ≡ l2.bank.lamports l2.staking_pool.reward_vault)
      × (l3.staking_pool.total_staked + amount ≡ l2.staking_pool.total_staked)
      × (l3.staking_pool.total_weighted_stake ≡ l2.staking_pool.total_weighted_stake)
      × (l3.stakers ≡ erase user l2.stakers)
untouched_stake_returns rt laws user ata vault since bump amount l l1 l2 l3 ata' brain_vault
      reward_vault now con custody can h history can' found k =
    let con1 = stake-IsConsistent rt user ata vault since bump amount l l1 h con in
    let custody1 = stake-IsCustody rt laws user ata vault since bump amount l l1 can h custody in
    let (held, _) = stakes_covered rt laws history con1 custody1 in
    let s = new_staker user amount since bump in
    let (s', r, found', _, ata_owned, handled, e) =
      unstake-eq rt user brain_vault ata' reward_vault now l2 l3 k in
    let same : s' ≡ s = (let q = sym found' ∙ found in ground arith) in
    let run = subst (λ x. handle_unstake rt user ata' now (context_of l2 x) ≡ ok r) same handled in
    let apart : l2.staking_pool.brain_vault ≢ ata' =
      λ a. can'.1 (sym ata_owned ∙ ap (λ x. (l2.bank.tokens x).owner) (sym a) ∙ held.owned) in
    let (vault_paid, user_paid, returned, _, total, weight) =
      unstake_pays rt laws user ata' now (context_of l2 s) r.0 r.1 can'.0 apart (omega arith) run in
    let none_due = untouched-entitlement user amount bump since now l2.staking_pool in
    rw (← e) (
      returned,
      omega (arith, user_paid, none_due),
      omega (arith, vault_paid, none_due),
      total,
      omega (arith, weight),
      refl,
    )
