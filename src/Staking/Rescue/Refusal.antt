-- ===== src/Staking/Rescue/Refusal.antt =====
-- What emergency_rescue.rs runs through, and why it fails.
use dlmm_auto_sell_assets_in.Base.{ℕ, ◌-◌, ◌≡◌, ◌≢◌, arith, ap, sym, ◌∙◌, ◌==◌, if◌then◌else◌}
use dlmm_auto_sell_assets_in.Errors.{
  ok, privilege_escalation, >>=-eq-ok, constraint-eq-ok, ok-injective,
}
use dlmm_auto_sell_assets_in.State.{Pubkey, StakingPool, StakerAccount}
use dlmm_auto_sell_assets_in.Runtime.{Bank, Runtime}
use dlmm_auto_sell_assets_in.Rewards.{StakerContext, weighted, accumulated, owed_since}
use dlmm_auto_sell_assets_in.Rewards.Shares.{share, weight_of, weighted-eq}
use dlmm_auto_sell_assets_in.Staking.Rescue.{
  signs_for, rescue_pending, rescue_rewards, handle_emergency_rescue,
}

-- What a rescue owes: the growth of the share since the debt was set, without the pending rewards.
abbrev pub rescue_due : StakingPool → StakerAccount → ℕ
rescue_due pool s =
    if s.current_multiplier == 0
    then 0
    else share (weight_of s) pool.reward_per_share - s.reward_debt

rescue_pending-eq :
    (pool : StakingPool) (s : StakerAccount) (n : ℕ)
    → rescue_pending pool s ≡ ok n
    → n ≡ rescue_due pool s
unfolding rescue_pending weighted accumulated owed_since
rescue_pending-eq pool s n h = ground arith

-- What a rescue has run through.
rescue-eq :
    (rt : Runtime) (user ata : Pubkey) (c c' : StakerContext)
    → handle_emergency_rescue rt user ata c ≡ ok c'
    → (mid : Bank) × (rt.token_transfer c.staking_pool.brain_vault c.staking_pool.brain_vault ata
          c.staker_account.staked_amount c.bank
        ≡ ok mid)
      × (rescue_rewards rt user (rescue_due c.staking_pool c.staker_account) c.staking_pool mid
          ≡ ok c'.bank)
      × (c'.staker_account ≡ c.staker_account)
      × (c'.staking_pool ≡ record (c.staking_pool) {
        total_staked = c.staking_pool.total_staked - c.staker_account.staked_amount;
        total_weighted_stake = c.staking_pool.total_weighted_stake - weight_of c.staker_account;
      })
unfolding handle_emergency_rescue
rescue-eq rt user ata c c' h =
    let pool = c.staking_pool in
    let s = c.staker_account in
    let (due, de, h1) = >>=-eq-ok (rescue_pending pool s) _ h in
    let (_, h1') =
      constraint-eq-ok (signs_for pool.brain_vault (rt.vault_seeds_address pool.brain_vault_bump))
        privilege_escalation _ h1 in
    let (mid, te, h2) =
      >>=-eq-ok (rt.token_transfer pool.brain_vault pool.brain_vault ata s.staked_amount c.bank) _
        h1' in
    let (paid, re, h3) = >>=-eq-ok (rescue_rewards rt user due pool mid) _ h2 in
    let (w, we, h4) = >>=-eq-ok (weighted s.staked_amount s.current_multiplier) _ h3 in
    let last : c'.bank ≡ paid = ap (λ (x : StakerContext). x.bank) (sym (ok-injective h4)) in
    let weight = weighted-eq s.staked_amount s.current_multiplier we in
    (
      mid,
      te,
      ap (λ n. rescue_rewards rt user n pool mid) (sym (rescue_pending-eq pool s due de))
          ∙ re
          ∙ ap ok (sym last),
      ap (λ (x : StakerContext). x.staker_account) (sym (ok-injective h4)),
      ground (arith, weight),
    )

-- Where token transfers need the authority of the source account, no rescue ever succeeds on a pool that
-- owns its BRAIN vault, as every pool that was initialized does: the handler signs for the vault itself.
pub rescue_fails :
    (rt : Runtime) (user ata : Pubkey) (c c' : StakerContext)
    → ((authority from to : Pubkey) (n : ℕ) (b b' : Bank)
        → rt.token_transfer authority from to n b ≡ ok b'
        → (b.tokens from).owner ≡ authority)
    → (c.bank.tokens c.staking_pool.brain_vault).owner ≡ rt.pool_key
    → rt.pool_key ≢ c.staking_pool.brain_vault
    → handle_emergency_rescue rt user ata c ≢ ok c'
rescue_fails rt user ata c c' checked owned apart h =
    let (mid, te, _, _, _) = rescue-eq rt user ata c c' h in
    let bv = c.staking_pool.brain_vault in
    apart (sym owned ∙ checked bv bv ata c.staker_account.staked_amount c.bank mid te)
