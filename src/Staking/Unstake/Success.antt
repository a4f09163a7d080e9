-- ===== src/Staking/Unstake/Success.antt =====
-- When an unstake goes through.
use dlmm_auto_sell_assets_in.Base.{
  ℕ, ◌+◌, ◌-◌, ◌*◌, ◌/◌, ◌^◌, ◌≡◌, ◌≢◌, ◌≤◌, ◌<◌, ◌⊎◌, true, inl, inr, arith, refl, sym, subst,
  Bool-cases, ◌&&◌, ltb, ◌==◌, if◌then◌else◌,
}
use dlmm_auto_sell_assets_in.Base.Int.{ℤ}
use dlmm_auto_sell_assets_in.Errors.{ok}
use dlmm_auto_sell_assets_in.Checked.{checked_add, checked_sub, checked_mul, checked_div, try_from}
use dlmm_auto_sell_assets_in.Constants.{precision}
use dlmm_auto_sell_assets_in.State.{Pubkey, StakingPool, StakerAccount}
use dlmm_auto_sell_assets_in.Runtime.{Bank, Runtime}
use dlmm_auto_sell_assets_in.Multiplier.{get_multiplier}
use dlmm_auto_sell_assets_in.Multiplier.Tiers.{get_multiplier-le}
use dlmm_auto_sell_assets_in.Rewards.{StakerContext, settle}
use dlmm_auto_sell_assets_in.Rewards.Shares.{weight_of, Settled, settle-Settled}
use dlmm_auto_sell_assets_in.Rewards.Success.{
  Fits, weighted-ok, weight_bound, share_bound, settle-ok, owed_total-ok, pay_rewards-ok,
}
use dlmm_auto_sell_assets_in.Staking.Claim.Payout.{entitlement}
use dlmm_auto_sell_assets_in.Staking.Claim.Success.{needed}
use dlmm_auto_sell_assets_in.Staking.Unstake.{
  accrue, forfeit, pay_or_forfeit, remove_stake, handle_unstake,
}
use dlmm_auto_sell_assets_in.Staking.Unstake.Payout.{Disposed, pay_or_forfeit-Disposed, accrue-eq}
use dlmm_auto_sell_assets_in.Staking.Unstake.Outcome.{entitled}

accrue-ok :
    (n : ℕ) (pool pool' : StakingPool) (s s' : StakerAccount)
    → n ≤ 3
    → Fits pool s
    → Settled n pool pool' s s'
    → (r : ℕ) × (accrue n pool' s' ≡ ok r)
unfolding accrue
accrue-ok n pool pool' s s' le f st = elim (Bool-cases (ltb 0 n)) [
  | inl late ↦
      let (acc, total, e) = owed_total-ok n pool pool' s s' le f st in (total, rw (late, e) refl)
  | inr early ↦ (s'.pending_rewards, rw early refl)
]

div-le : (a b : ℕ) → a / b ≤ a
div-le a b = grind arith

forfeit-ok :
    (forfeited : ℕ) (pool : StakingPool)
    → forfeited < 2 ^ 64
    → pool.reward_per_share < 2 ^ 127
    → (pool' : StakingPool) × (forfeit forfeited pool ≡ ok pool')
unfolding forfeit checked_mul checked_div checked_add try_from
forfeit-ok forfeited pool small low =
    elim (Bool-cases (ltb 0 forfeited && ltb 0 pool.total_weighted_stake)) [
      | inr kept ↦ (pool, rw kept refl)
      | inl spread ↦
          let rps = pool.reward_per_share + forfeited * precision / pool.total_weighted_stake in
          let le = div-le (forfeited * precision) pool.total_weighted_stake in
          (record pool { reward_per_share = rps }, rw spread (ground arith))
    ]

pay_or_forfeit-ok :
    (rt : Runtime) (user : Pubkey) (n pending : ℕ) (pool : StakingPool) (bank : Bank)
    → user ≢ pool.reward_vault
    → pending < 2 ^ 64
    → pool.reward_per_share < 2 ^ 127
    → ((if n == 0 then 0 else pending) ≡ 0) ⊎ (rt.may_debit pool.reward_vault ≡ true)
    → needed rt (if n == 0 then 0 else pending) ≤ bank.lamports pool.reward_vault
    → bank.lamports user + (if n == 0 then 0 else pending) < 2 ^ 64
    → (pool' : StakingPool) × (bank' : Bank) × (pay_or_forfeit rt user n pending pool bank
        ≡ ok (pool', bank'))
unfolding pay_or_forfeit
pay_or_forfeit-ok rt user n pending pool bank ne small low debit rent room =
    elim (Bool-cases (ltb 0 n)) [
      | inl late ↦ elim (Bool-cases (ltb 0 pending)) [
        | inl due ↦
            let (pool', bank', e) =
              pay_rewards-ok rt user pending pool bank ne (ground arith) (ground arith)
                (ground arith) in
            (pool', bank', rw (late, due) e)
        | inr none_due ↦ (pool, bank, rw (late, none_due) refl)
      ]
      | inr early ↦
          let (pool', e) = forfeit-ok pending pool small low in (pool', bank, rw (early, e) refl)
    ]

remove_stake-ok :
    (staked n : ℕ) (pool : StakingPool)
    → staked * n < 2 ^ 128
    → staked * n ≤ pool.total_weighted_stake
    → staked ≤ pool.total_staked
    → (pool' : StakingPool) × (remove_stake staked n pool ≡ ok pool')
unfolding remove_stake checked_sub
remove_stake-ok staked n pool fits weight total = (
  record pool {
    total_weighted_stake = pool.total_weighted_stake - staked * n;
    total_staked = pool.total_staked - staked;
  },
  rw (weighted-ok staked n fits) (ground arith),
)

-- The five parts of an unstake that go through make it go through.
unstake_composes :
    (rt : Runtime) (user ata : Pubkey) (now : ℤ) (c : StakerContext)
    (pool1 pool2 pool' : StakingPool) (s1 : StakerAccount) (pending : ℕ) (mid bank' : Bank)
    (vault : Pubkey) (amount : ℕ)
    → settle (get_multiplier c.staker_account.stake_timestamp now) c.staking_pool c.staker_account
      ≡ ok (pool1, s1)
    → accrue (get_multiplier c.staker_account.stake_timestamp now) pool1 s1 ≡ ok pending
    → pay_or_forfeit rt user
        (get_multiplier c.staker_account.stake_timestamp now)
        pending
        pool1
        c.bank
      ≡ ok (pool2, mid)
    → pool2.brain_vault ≡ vault
    → s1.staked_amount ≡ amount
    → rt.token_transfer rt.pool_key vault ata amount mid ≡ ok bank'
    → remove_stake amount (get_multiplier c.staker_account.stake_timestamp now) pool2 ≡ ok pool'
    → handle_unstake rt user ata now c ≡ ok (pool', bank')
unfolding handle_unstake
unstake_composes rt user ata now c pool1 pool2 pool' s1 pending mid bank' vault amount se ae pe ve
      me te re =
    let returned : rt.token_transfer rt.pool_key pool2.brain_vault ata s1.staked_amount mid
        ≡ ok bank' =
      subst (λ v. rt.token_transfer rt.pool_key v ata s1.staked_amount mid ≡ ok bank') (sym ve)
        (subst (λ a. rt.token_transfer rt.pool_key vault ata a mid ≡ ok bank') (sym me) te) in
    let removed =
      subst
        (λ a. remove_stake a (get_multiplier c.staker_account.stake_timestamp now) pool2 ≡ ok pool')
        (sym me) re in
    rw (se, ae, pe, returned, removed) refl

-- The parts of an unstake after the settlement.
module _ (rt : Runtime) (user : Pubkey) (now : ℤ) (c : StakerContext)
    (f : Fits c.staking_pool c.staker_account) (pool1 : StakingPool) (s1 : StakerAccount)
    (st : Settled
      (get_multiplier c.staker_account.stake_timestamp now)
      c.staking_pool
      pool1
      c.staker_account
      s1) where
  -- What is due is paid or forfeited, where the vault can pay the entitlement.
  disposal-ok :
      user ≢ c.staking_pool.reward_vault
      → c.staking_pool.reward_per_share < 2 ^ 127
      → (entitlement now c.staking_pool c.staker_account ≡ 0)
        ⊎ (rt.may_debit c.staking_pool.reward_vault ≡ true)
      → needed rt (entitlement now c.staking_pool c.staker_account)
        ≤ c.bank.lamports c.staking_pool.reward_vault
      → c.bank.lamports user + entitlement now c.staking_pool c.staker_account < 2 ^ 64
      → (pending : ℕ) × (pool2 : StakingPool) × (mid : Bank) × (accrue
            (get_multiplier c.staker_account.stake_timestamp now)
            pool1
            s1
          ≡ ok pending)
        × (pay_or_forfeit rt user
              (get_multiplier c.staker_account.stake_timestamp now)
              pending
              pool1
              c.bank
            ≡ ok (pool2, mid))
  disposal-ok ne low debit rent room =
      let n = get_multiplier c.staker_account.stake_timestamp now in
      let le = get_multiplier-le c.staker_account.stake_timestamp now in
      let (pending, ae) = accrue-ok n c.staking_pool pool1 c.staker_account s1 le f st in
      let due = accrue-eq n c.staking_pool pool1 c.staker_account s1 st f.sound ae in
      let e : entitlement now c.staking_pool c.staker_account ≡ (if n == 0 then 0 else pending) =
        entitled n pending c due in
      let v : pool1.reward_vault ≡ c.staking_pool.reward_vault = ground (arith, st.pool_frame) in
      let r : pool1.reward_per_share ≡ c.staking_pool.reward_per_share =
        ground (arith, st.pool_frame) in
      let words =
        share_bound c.staking_pool c.staker_account f c.staker_account.current_multiplier
          f.multiplier in
      let (pool2, mid, pe) =
        pay_or_forfeit-ok rt user n pending pool1 c.bank (rw v ne)
          (omega (arith, due, f.words, words)) (rw r low) (rw (v, ← e) debit) (rw (v, ← e) rent)
          (rw (← e) room) in
      (pending, pool2, mid, ae, pe)

  -- The stake and its weight are still in the totals.
  removal-ok :
      (pending : ℕ) (pool2 : StakingPool) (mid : Bank)
      → Disposed rt user
          (get_multiplier c.staker_account.stake_timestamp now)
          pending
          (if get_multiplier c.staker_account.stake_timestamp now == 0 then 0 else pending)
          pool1
          pool2
          c.bank
          mid
      → c.staker_account.staked_amount ≤ c.staking_pool.total_staked
      → (pool' : StakingPool) × (remove_stake c.staker_account.staked_amount
            (get_multiplier c.staker_account.stake_timestamp now)
            pool2
          ≡ ok pool')
  removal-ok pending pool2 mid d staked =
      let n = get_multiplier c.staker_account.stake_timestamp now in
      let three =
        weight_bound c.staking_pool c.staker_account f n
          (get_multiplier-le c.staker_account.stake_timestamp now) in
      let amount : s1.staked_amount ≡ c.staker_account.staked_amount =
        ground (arith, st.staker_frame) in
      let mult : s1.current_multiplier ≡ n = ground (arith, st.staker_frame) in
      let weight : weight_of s1 ≡ c.staker_account.staked_amount * n = rw (amount, mult) refl in
      let same_weight : pool2.total_weighted_stake ≡ pool1.total_weighted_stake =
        ground (arith, d.pool_frame) in
      let same_stake : pool2.total_staked ≡ c.staking_pool.total_staked =
        ground (arith, d.pool_frame, st.pool_frame) in
      remove_stake-ok c.staker_account.staked_amount n pool2 (omega (arith, f.room))
        (omega (arith, st.weight, f.counted)) (omega arith)

-- Unstaking works, with the pool paused or not: where the amounts fit their words, the staker is counted in
-- the pool's totals, and the token program returns the stake, an unstake by a user other than the reward
-- vault succeeds if nothing is due; and also if something is due, provided that the runtime lets the program
-- debit the reward vault and that this vault holds what is due with its rent-exempt minimum.
pub unstake_allowed :
    (rt : Runtime) (user ata : Pubkey) (now : ℤ) (c : StakerContext)
    → ((b : Bank)
        → b.tokens ≡ c.bank.tokens
        → (b' : Bank) × (rt.token_transfer rt.pool_key c.staking_pool.brain_vault ata
              c.staker_account.staked_amount b
            ≡ ok b'))
    → user ≢ c.staking_pool.reward_vault
    → Fits c.staking_pool c.staker_account
    → c.staking_pool.reward_per_share < 2 ^ 127
    → c.staker_account.staked_amount ≤ c.staking_pool.total_staked
    → (entitlement now c.staking_pool c.staker_account ≡ 0)
      ⊎ (rt.may_debit c.staking_pool.reward_vault ≡ true)
    → needed rt (entitlement now c.staking_pool c.staker_account)
      ≤ c.bank.lamports c.staking_pool.reward_vault
    → c.bank.lamports user + entitlement now c.staking_pool c.staker_account < 2 ^ 64
    → (pool' : StakingPool) × (bank' : Bank) × (handle_unstake rt user ata now c
        ≡ ok (pool', bank'))
unstake_allowed rt user ata now c returns ne f low staked debit rent room =
    let n = get_multiplier c.staker_account.stake_timestamp now in
    let le = get_multiplier-le c.staker_account.stake_timestamp now in
    let (pool1, s1, se) = settle-ok n c.staking_pool c.staker_account le f in
    let st = settle-Settled n c.staking_pool c.staker_account pool1 s1 se f.sound in
    let (pending, pool2, mid, ae, pe) =
      disposal-ok rt user now c f pool1 s1 st ne low debit rent room in
    let d = pay_or_forfeit-Disposed rt user n pending pool1 pool2 c.bank mid pe in
    let (pool', re) = removal-ok rt user now c f pool1 s1 st pending pool2 mid d staked in
    let (bank', te) = returns mid d.tokens in
    let vault : pool2.brain_vault ≡ c.staking_pool.brain_vault =
      ground (arith, d.pool_frame, st.pool_frame) in
    let amount : s1.staked_amount ≡ c.staker_account.staked_amount =
      ground (arith, st.staker_frame) in
    (
      pool',
      bank',
      unstake_composes rt user ata now c pool1 pool2 pool' s1 pending mid bank'
          c.staking_pool.brain_vault c.staker_account.staked_amount se ae pe vault amount te re,
    )
