-- ===== src/Staking/Deposit/Accounting.antt =====
-- Where the lamports of a deposit go, and what the accumulator promises for them.
use dlmm_auto_sell_assets_in.Base.{
  ℕ, sym, ap, ◌∙◌, ◌==◌, ==→≡, ◌+◌, ◌-◌, ◌*◌, ◌/◌, ◌≡◌, ◌≢◌, ◌≤◌, ◌<◌, inl, inr, arith, false, ltb,
  Bool-cases, if◌then◌else◌,
}
use dlmm_auto_sell_assets_in.Errors.{ok, >>=-eq-ok, ok-injective}
use dlmm_auto_sell_assets_in.Checked.{checked_sub, checked_add, checked_mul, checked_div}
use dlmm_auto_sell_assets_in.Constants.{precision, min_reward_deposit}
use dlmm_auto_sell_assets_in.State.{Pubkey, StakingPool}
use dlmm_auto_sell_assets_in.Runtime.{Bank, Runtime}
use dlmm_auto_sell_assets_in.Runtime.Laws.{IsRuntime}
use dlmm_auto_sell_assets_in.Staking.Deposit.{
  protocol_fee, grow_accumulator, transfer_deposit, handle_deposit_rewards,
}

abbrev pub fee_of : ℕ → StakingPool → ℕ
fee_of amount pool = amount * pool.protocol_fee_bps / 10000

abbrev pub net_of : ℕ → StakingPool → ℕ
net_of amount pool = amount - fee_of amount pool

-- The pool after a deposit of which `net` lamports reach the vault.
abbrev pub deposited_pool : ℕ → StakingPool → StakingPool
deposited_pool net pool = record pool {
  reward_per_share = pool.reward_per_share + net * precision / pool.total_weighted_stake;
  total_rewards_distributed = pool.total_rewards_distributed + net;
}

pub handle_deposit-eq :
    (rt : Runtime) (authority : Pubkey) (amount : ℕ) (pool pool' : StakingPool) (bank bank' : Bank)
    → handle_deposit_rewards rt authority amount pool bank ≡ ok (pool', bank')
    → (pool.is_paused ≡ false)
      × (min_reward_deposit ≤ amount)
      × (0 < pool.total_weighted_stake)
      × (fee_of amount pool ≤ amount)
      × (transfer_deposit rt authority (fee_of amount pool) (net_of amount pool) pool bank
          ≡ ok bank')
      × (pool' ≡ deposited_pool (net_of amount pool) pool)
unfolding handle_deposit_rewards protocol_fee grow_accumulator checked_mul checked_div checked_sub
    checked_add
handle_deposit-eq rt authority amount pool pool' bank bank' h = ground arith

module _ (rt : Runtime) (laws : IsRuntime rt) where
  -- A transfer takes lamports from its source only.
  received :
      (from to k : Pubkey) (n : ℕ) (b b' : Bank)
      → from ≢ k
      → rt.system_transfer from to n b ≡ ok b'
      → b.lamports k ≤ b'.lamports k
  received from to k n b b' ne h = elim (Bool-cases (k == to)) [
    | inl same ↦
        let e : k ≡ to = ==→≡ k to same in
        let t : b'.lamports to ≡ b.lamports to + n =
          laws.system.target from to n b b' h (λ f. ne (f ∙ sym e)) in
        rw e (omega arith)
    | inr different ↦
        let t : b'.lamports k ≡ b.lamports k =
          laws.system.other from to k n b b' h (λ f. ne (sym f)) (λ f. ground arith) in
        omega arith
  ]

  -- The vault gains the net amount, whatever the treasury is.
  pub transfer_deposit-vault :
      (authority : Pubkey) (fee net : ℕ) (pool : StakingPool) (bank bank' : Bank)
      → authority ≢ pool.reward_vault
      → transfer_deposit rt authority fee net pool bank ≡ ok bank'
      → bank.lamports pool.reward_vault + net ≤ bank'.lamports pool.reward_vault
  unfolding transfer_deposit
  transfer_deposit-vault authority fee net pool bank bank' ne h =
      let (mid, fe, h1) =
        >>=-eq-ok
          (if ltb 0 fee then rt.system_transfer authority pool.treasury fee bank else ok bank) _
          h in
      let t : bank'.lamports pool.reward_vault ≡ mid.lamports pool.reward_vault + net =
        laws.system.target authority pool.reward_vault net mid bank' h1 ne in
      elim (Bool-cases (ltb 0 fee)) [
        | inl charged ↦
            let r : bank.lamports pool.reward_vault ≤ mid.lamports pool.reward_vault =
              received authority pool.treasury pool.reward_vault fee bank mid ne
                (rw charged at fe) in
            omega arith
        | inr free ↦ let r : bank ≡ mid = ok-injective (rw free at fe) in rw r (omega arith)
      ]

  -- The lamport transfers of a deposit leave every token account alone.
  pub transfer_deposit-tokens :
      (authority k : Pubkey) (fee net : ℕ) (pool : StakingPool) (bank bank' : Bank)
      → transfer_deposit rt authority fee net pool bank ≡ ok bank'
      → bank'.tokens k ≡ bank.tokens k
  unfolding transfer_deposit
  transfer_deposit-tokens authority k fee net pool bank bank' h =
      let (mid, fe, h1) =
        >>=-eq-ok
          (if ltb 0 fee then rt.system_transfer authority pool.treasury fee bank else ok bank) _
          h in
      let second = laws.system.tokens_kept authority pool.reward_vault k net mid bank' h1 in
      elim (Bool-cases (ltb 0 fee)) [
        | inl charged ↦
            second
            ∙ laws.system.tokens_kept authority pool.treasury k fee bank mid (rw charged at fe)
        | inr free ↦
            let r : bank ≡ mid = ok-injective (rw free at fe) in
            second ∙ ap (λ (b : Bank). b.tokens k) (sym r)
      ]
