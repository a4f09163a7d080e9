-- ===== src/Staking/Claim/Payout.antt =====
-- What a successful claim does to the pool, the staker and the balances.
use dlmm_auto_sell_assets_in.Base.{
  ℕ, ◌+◌, ◌-◌, ◌≡◌, ◌≢◌, ◌≤◌, ◌<◌, true, inl, inr, arith, refl, subst, not, ◌==◌, if◌then◌else◌,
  Bool-cases,
}
use dlmm_auto_sell_assets_in.Base.Int.{ℤ}
use dlmm_auto_sell_assets_in.Errors.{ok, >>=-eq-ok, ok-injective, require-eq-ok, pool_paused}
use dlmm_auto_sell_assets_in.State.{Pubkey, StakingPool, StakerAccount}
use dlmm_auto_sell_assets_in.Runtime.{Bank, Runtime}
use dlmm_auto_sell_assets_in.Multiplier.{get_multiplier}
use dlmm_auto_sell_assets_in.Rewards.{StakerContext, owed_total, settle, pay_rewards}
use dlmm_auto_sell_assets_in.Rewards.Shares.{
  share, weight_of, owed_total-eq, Settled, settle-Settled,
}
use dlmm_auto_sell_assets_in.Rewards.Payments.{Paid, pay_rewards-Paid}
use dlmm_auto_sell_assets_in.Staking.Claim.{pay_claim, claim_owed, handle_claim}

-- A staker's debt never exceeds the share of its weight.
abbrev pub IsSound : ℕ → StakerAccount → Type 0
IsSound rps s = s.reward_debt ≤ share (weight_of s) rps

-- What is due to a staker at a time: nothing before the cliff, and after it the pending rewards with
-- the growth of its share since the debt was set.
abbrev pub entitlement : ℤ → StakingPool → StakerAccount → ℕ
entitlement now pool s =
    if get_multiplier s.stake_timestamp now == 0
    then 0
    else s.pending_rewards + share (weight_of s) pool.reward_per_share - s.reward_debt

-- The outcome of paying `total` on a claim at multiplier `new_mult`.
pub record Claimed (rt : Runtime) (user : Pubkey) (new_mult total : ℕ) (c c' : StakerContext)
    : Type 0 where
  pub pool_frame : c'.staking_pool ≡ record (c.staking_pool) {
    total_weighted_stake = c'.staking_pool.total_weighted_stake;
    is_paused = c'.staking_pool.is_paused;
  }
  pub staker_frame : c'.staker_account ≡ record (c.staker_account) {
    pending_rewards = c'.staker_account.pending_rewards;
    current_multiplier = new_mult;
    reward_debt = c'.staker_account.reward_debt;
    last_claim_timestamp = c'.staker_account.last_claim_timestamp;
  }
  pub weight :
      c'.staking_pool.total_weighted_stake + weight_of c.staker_account
      ≡ c.staking_pool.total_weighted_stake + weight_of c'.staker_account
  pub value :
      c'.staker_account.pending_rewards
        + total
        + c.staker_account.reward_debt
        + share (weight_of c'.staker_account) c.staking_pool.reward_per_share
      ≡ c.staker_account.pending_rewards
        + share (weight_of c.staker_account) c.staking_pool.reward_per_share
        + c'.staker_account.reward_debt
  pub sound : IsSound c.staking_pool.reward_per_share c'.staker_account
  pub total_due : (new_mult ≢ 0) → c'.staker_account.pending_rewards ≡ 0
  pub total_none : (new_mult ≡ 0) → total ≡ 0
  pub debited : 0 < total → rt.may_debit c.staking_pool.reward_vault ≡ true
  pub vault_bound :
      c.bank.lamports c.staking_pool.reward_vault
      ≤ c'.bank.lamports c.staking_pool.reward_vault + total
  pub vault :
      user ≢ c.staking_pool.reward_vault
      → c'.bank.lamports c.staking_pool.reward_vault + total
        ≡ c.bank.lamports c.staking_pool.reward_vault
  pub user_paid :
      user ≢ c.staking_pool.reward_vault → c'.bank.lamports user ≡ c.bank.lamports user + total
  pub tokens : c'.bank.tokens ≡ c.bank.tokens

abbrev context : StakingPool → StakerAccount → Bank → StakerContext
context pool s bank = record { staking_pool = pool; staker_account = s; bank = bank }

-- A claim that stops after the settlement has paid nothing.
Claimed-none :
    (rt : Runtime) (user : Pubkey) (n : ℕ) (pool pool' : StakingPool) (s s' : StakerAccount)
    (bank : Bank)
    → Settled n pool pool' s s'
    → IsSound pool.reward_per_share s
    → (n ≢ 0 → s'.pending_rewards ≡ 0)
    → Claimed rt user n 0 (context pool s bank) (context pool' s' bank)
Claimed-none rt user n pool pool' s s' bank st sound none_due = record {
  pool_frame = ground (arith, st.pool_frame);
  staker_frame = ground (arith, st.staker_frame);
  weight = st.weight;
  value = omega (arith, st.pending);
  sound = ground (arith, st.debt);
  total_due = none_due;
  total_none = λ _. refl;
  debited = λ some. absurd (omega arith);
  vault_bound = omega arith;
  vault = λ _. omega arith;
  user_paid = λ _. omega arith;
  tokens = refl;
}

-- The staker after a payment.
abbrev paid_staker : StakerAccount → ℕ → ℤ → StakerAccount
paid_staker s debt now = record s {
  reward_debt = debt;
  pending_rewards = 0;
  last_claim_timestamp = now;
}

module _ (rt : Runtime) (user : Pubkey) (now : ℤ) (n : ℕ) (positive : n ≢ 0) where
  Paid-Claimed :
      (pool pool' pool'' : StakingPool) (s s' : StakerAccount) (bank bank' : Bank) (total acc : ℕ)
      → Settled n pool pool' s s'
      → Paid rt user total pool' pool'' bank bank'
      → acc ≡ share (weight_of s') pool.reward_per_share
      → total + s'.reward_debt ≡ s'.pending_rewards + acc
      → Claimed rt user n total
          (context pool s bank)
          (context pool'' (paid_staker s' acc now) bank')
  Paid-Claimed pool pool' pool'' s s' bank bank' total acc st p e due = record {
    pool_frame = ground (arith, st.pool_frame, p.pool_frame);
    staker_frame = ground (arith, st.staker_frame);
    weight = ground (arith, st.weight, p.pool_frame);
    value = omega (arith, st.pending);
    sound = omega arith;
    total_due = λ _. refl;
    total_none = λ z. absurd (positive z);
    debited = λ some. ground (arith, p.debited some, st.pool_frame);
    vault_bound = ground (arith, p.vault_bound, st.pool_frame);
    vault = λ ne. ground (arith, p.vault, st.pool_frame);
    user_paid = λ ne. ground (arith, p.user_paid, st.pool_frame);
    tokens = p.tokens;
  }

  -- Past the cliff, a claim on a settled staker pays its entitlement, and sets its debt to its share.
  claim_owed-Claimed :
      (pool pool' : StakingPool) (s s' : StakerAccount) (bank : Bank) (c' : StakerContext)
      → Settled n pool pool' s s'
      → IsSound pool.reward_per_share s
      → claim_owed rt user now n pool' s' bank ≡ ok c'
      → (total : ℕ) × Claimed rt user n total (context pool s bank) c'
        × (total + s.reward_debt ≡ s.pending_rewards + share (weight_of s) pool.reward_per_share)
  unfolding claim_owed pay_claim
  claim_owed-Claimed pool pool' s s' bank c' st sound h =
      let ((acc, total), oe, h1) = >>=-eq-ok (owed_total n pool' s') _ h in
      let (ae, le, due) = owed_total-eq n pool' s' acc total oe in
      let m : s'.current_multiplier ≡ n = ground (arith, st.staker_frame) in
      let r : pool'.reward_per_share ≡ pool.reward_per_share = ground (arith, st.pool_frame) in
      let ae' : acc ≡ share (weight_of s') pool.reward_per_share = rw (m, ← r) ae in
      let due' : total + s.reward_debt
          ≡ s.pending_rewards + share (weight_of s) pool.reward_per_share =
        omega (arith, st.pending) in
      elim (Bool-cases (total == 0)) [
        | inl nothing ↦
            let stop = ok-injective (rw nothing at h1) in
            (
              0,
              subst (λ c. Claimed rt user n 0 (context pool s bank) c) stop
                  (Claimed-none rt user n pool pool' s s' bank st sound (λ _. ground arith)),
              ground arith,
            )
        | inr something ↦
            let ((pool'', bank'), pe, he) =
              >>=-eq-ok (pay_rewards rt user total pool' bank) _ (rw something at h1) in
            (
              total,
              subst (λ c. Claimed rt user n total (context pool s bank) c) (ok-injective he)
                  (Paid-Claimed pool pool' pool'' s s' bank bank' total acc st
                    (pay_rewards-Paid rt user total pool' pool'' bank bank' pe) ae' due),
              due',
            )
      ]

-- A claim that succeeds pays the entitlement, and leaves the debt and the weights in step.
pub handle_claim-Claimed :
    (rt : Runtime) (user : Pubkey) (now : ℤ) (c c' : StakerContext)
    → IsSound c.staking_pool.reward_per_share c.staker_account
    → handle_claim rt user now c ≡ ok c'
    → Claimed rt user
        (get_multiplier c.staker_account.stake_timestamp now)
        (entitlement now c.staking_pool c.staker_account)
        c
        c'
unfolding handle_claim
handle_claim-Claimed rt user now c c' sound h =
    let n = get_multiplier c.staker_account.stake_timestamp now in
    let (running, h0) = require-eq-ok (not c.staking_pool.is_paused) pool_paused _ h in
    let ((pool, s), se, h1) = >>=-eq-ok (settle n c.staking_pool c.staker_account) _ h0 in
    let st = settle-Settled n c.staking_pool c.staker_account pool s se sound in
    elim (Bool-cases (n == 0)) [
      | inl early ↦ rw early (
          subst (λ x. Claimed rt user n 0 c x) (ok-injective (rw early at h1))
            (Claimed-none rt user n c.staking_pool pool c.staker_account s c.bank st sound
              (λ z. absurd (z (ground arith)))))
      | inr late ↦
          let (total, claimed, due) =
            claim_owed-Claimed rt user now n (ground arith) c.staking_pool pool c.staker_account s
              c.bank c' st sound (rw late at h1) in
          rw late (
            let e : total
                ≡ c.staker_account.pending_rewards
                  + share (weight_of c.staker_account) c.staking_pool.reward_per_share
                  - c.staker_account.reward_debt =
              omega arith in
            rw (← e) claimed)
    ]
