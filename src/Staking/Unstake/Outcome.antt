-- ===== src/Staking/Unstake/Outcome.antt =====
-- The whole of a successful unstake (unstake.rs): the four steps put together.
use dlmm_auto_sell_assets_in.Base.{
  ℕ, ◌+◌, ◌-◌, ◌*◌, ◌≡◌, ◌≢◌, ◌≤◌, ◌<◌, true, inl, inr, arith, subst, sym, ◌==◌, if◌then◌else◌,
  Bool-cases,
}
use dlmm_auto_sell_assets_in.Base.Int.{ℤ}
use dlmm_auto_sell_assets_in.Errors.{ok, >>=-eq-ok, ok-injective}
use dlmm_auto_sell_assets_in.Checked.{checked_sub}
use dlmm_auto_sell_assets_in.Constants.{precision}
use dlmm_auto_sell_assets_in.State.{Pubkey, StakingPool, StakerAccount}
use dlmm_auto_sell_assets_in.Runtime.{Bank, Runtime}
use dlmm_auto_sell_assets_in.Multiplier.{get_multiplier}
use dlmm_auto_sell_assets_in.Rewards.{StakerContext, weighted, settle}
use dlmm_auto_sell_assets_in.Rewards.Shares.{share, weight_of, Settled, settle-Settled}
use dlmm_auto_sell_assets_in.Staking.Claim.Payout.{IsSound, entitlement}
use dlmm_auto_sell_assets_in.Staking.Unstake.{accrue, pay_or_forfeit, remove_stake, handle_unstake}
use dlmm_auto_sell_assets_in.Staking.Unstake.Payout.{
  Disposed, spread, pay_or_forfeit-Disposed, accrue-eq,
}

pub remove_stake-eq :
    (staked n : ℕ) (pool pool' : StakingPool)
    → remove_stake staked n pool ≡ ok pool'
    → (pool' ≡ record pool {
      total_weighted_stake = pool'.total_weighted_stake;
      total_staked = pool'.total_staked;
    })
      × (pool'.total_weighted_stake + staked * n ≡ pool.total_weighted_stake)
      × (pool'.total_staked + staked ≡ pool.total_staked)
unfolding remove_stake weighted checked_sub
remove_stake-eq staked n pool pool' h = (ground arith, ground arith, ground arith)

-- What the staker has earned: the pending rewards and the growth of its share.
abbrev pub earned : StakingPool → StakerAccount → ℕ
earned pool s = s.pending_rewards + share (weight_of s) pool.reward_per_share - s.reward_debt

-- `mid` is the state of the balances between the payment and the return of the stake.
pub record Unstaked (rt : Runtime) (user ata : Pubkey) (n total : ℕ) (c : StakerContext)
    (pool' : StakingPool) (mid bank' : Bank) : Type 0 where
  pub pool_frame : pool' ≡ record (c.staking_pool) {
    is_paused = pool'.is_paused;
    reward_per_share = pool'.reward_per_share;
    total_weighted_stake = pool'.total_weighted_stake;
    total_staked = pool'.total_staked;
  }
  pub stake_removed :
      pool'.total_staked + c.staker_account.staked_amount ≡ c.staking_pool.total_staked
  pub weight_removed :
      pool'.total_weighted_stake + weight_of c.staker_account ≡ c.staking_pool.total_weighted_stake
  pub grows : c.staking_pool.reward_per_share ≤ pool'.reward_per_share
  pub growth :
      (pool'.reward_per_share - c.staking_pool.reward_per_share) * pool'.total_weighted_stake
      ≤ (earned c.staking_pool c.staker_account - total) * precision
  pub unchanged : n ≢ 0 → pool'.reward_per_share ≡ c.staking_pool.reward_per_share
  pub forfeited :
      n ≡ 0
      → pool'.reward_per_share
        ≡ spread c.staking_pool.reward_per_share pool'.total_weighted_stake
            (earned c.staking_pool c.staker_account)
  pub debited : 0 < total → rt.may_debit c.staking_pool.reward_vault ≡ true
  pub rent_kept :
      0 < total → rt.minimum_balance 0 + total ≤ c.bank.lamports c.staking_pool.reward_vault
  pub vault_bound :
      c.bank.lamports c.staking_pool.reward_vault ≤ mid.lamports c.staking_pool.reward_vault + total
  pub vault :
      user ≢ c.staking_pool.reward_vault
      → mid.lamports c.staking_pool.reward_vault + total
        ≡ c.bank.lamports c.staking_pool.reward_vault
  pub user_paid :
      user ≢ c.staking_pool.reward_vault → mid.lamports user ≡ c.bank.lamports user + total
  pub tokens : mid.tokens ≡ c.bank.tokens
  pub returned :
      rt.token_transfer rt.pool_key c.staking_pool.brain_vault ata c.staker_account.staked_amount
        mid
      ≡ ok bank'

unstaked :
    (rt : Runtime) (user ata : Pubkey) (n pending total : ℕ) (c : StakerContext)
    (pool1 pool2 pool' : StakingPool) (s : StakerAccount) (mid bank' : Bank)
    → total ≡ (if n == 0 then 0 else pending)
    → Settled n c.staking_pool pool1 c.staker_account s
    → pending + c.staker_account.reward_debt
      ≡ c.staker_account.pending_rewards
        + share (weight_of c.staker_account) c.staking_pool.reward_per_share
    → Disposed rt user n pending total pool1 pool2 c.bank mid
    → rt.token_transfer rt.pool_key pool2.brain_vault ata s.staked_amount mid ≡ ok bank'
    → remove_stake s.staked_amount n pool2 ≡ ok pool'
    → Unstaked rt user ata n total c pool' mid bank'
unstaked rt user ata n pending total c pool1 pool2 pool' s mid bank' te st due d ret rem =
    let (frame, weight, stake) = remove_stake-eq s.staked_amount n pool2 pool' rem in
    let m : s.current_multiplier ≡ n = ground (arith, st.staker_frame) in
    let a : s.staked_amount ≡ c.staker_account.staked_amount = ground (arith, st.staker_frame) in
    let r1 : pool1.reward_per_share ≡ c.staking_pool.reward_per_share =
      ground (arith, st.pool_frame) in
    let r2 : pool'.reward_per_share ≡ pool2.reward_per_share = ground (arith, frame) in
    let w2 : pool2.total_weighted_stake ≡ pool1.total_weighted_stake =
      ground (arith, d.pool_frame) in
    let wn : weight_of s ≡ s.staked_amount * n = rw m in
    let bv : pool2.brain_vault ≡ c.staking_pool.brain_vault =
      ground (arith, d.pool_frame, st.pool_frame) in
    let v : pool1.reward_vault ≡ c.staking_pool.reward_vault = ground (arith, st.pool_frame) in
    record {
      pool_frame = ground (arith, frame, d.pool_frame, st.pool_frame);
      stake_removed = ground (arith, stake, d.pool_frame, st.pool_frame, a);
      weight_removed = omega (arith, st.weight);
      grows = omega (arith, d.grows);
      growth = elim (Bool-cases (n == 0)) [
        | inl early ↦
            let z : n ≡ 0 = ground arith in
            let zw : s.staked_amount * n ≡ 0 = rw z (omega arith) in
            let t : total ≡ 0 = ground arith in
            let e : earned c.staking_pool c.staker_account - total ≡ pending = omega arith in
            let w : pool'.total_weighted_stake ≡ pool1.total_weighted_stake = omega arith in
            rw (e, w, r2, ← r1) (rw early at d.growth)
        | inr late ↦
            let nz : n ≢ 0 = ground arith in
            let e : pool'.reward_per_share - c.staking_pool.reward_per_share ≡ 0 =
              omega (arith, d.unchanged nz) in
            rw e (omega arith)
      ];
      unchanged = λ nz. omega (arith, d.unchanged nz);
      forfeited = λ z.
          let zw : s.staked_amount * n ≡ 0 = rw z (omega arith) in
          let t : total ≡ 0 = rw z at d.total_paid in
          let e : earned c.staking_pool c.staker_account ≡ pending = omega arith in
          let w : pool'.total_weighted_stake ≡ pool1.total_weighted_stake = omega arith in
          rw (e, w, r2, ← r1) (d.forfeited z);
      debited = λ positive. rw (← v) (d.debited positive);
      rent_kept = λ positive. rw (← v) (d.rent_kept positive);
      vault_bound = ground (arith, d.vault_bound, v);
      vault = λ ne. ground (arith, d.vault, v);
      user_paid = λ ne. ground (arith, d.user_paid, v);
      tokens = d.tokens;
      returned = rw (← bv, ← a) ret;
    }

pub entitled :
    (n pending : ℕ) (c : StakerContext)
    → pending + c.staker_account.reward_debt
      ≡ c.staker_account.pending_rewards
        + share (weight_of c.staker_account) c.staking_pool.reward_per_share
    → (if n == 0 then 0 else earned c.staking_pool c.staker_account)
      ≡ (if n == 0 then 0 else pending)
entitled n pending c h = ground arith

-- A successful unstake pays the entitlement, returns the whole stake and takes the staker's weight
-- out of the pool.
pub handle_unstake-Unstaked :
    (rt : Runtime) (user ata : Pubkey) (now : ℤ) (c : StakerContext) (pool' : StakingPool)
    (bank' : Bank)
    → IsSound c.staking_pool.reward_per_share c.staker_account
    → handle_unstake rt user ata now c ≡ ok (pool', bank')
    → (mid : Bank) × Unstaked rt user ata
        (get_multiplier c.staker_account.stake_timestamp now)
        (entitlement now c.staking_pool c.staker_account)
        c
        pool'
        mid
        bank'
unfolding handle_unstake
handle_unstake-Unstaked rt user ata now c pool' bank' sound h =
    let n = get_multiplier c.staker_account.stake_timestamp now in
    let ((pool1, s), se, h1) = >>=-eq-ok (settle n c.staking_pool c.staker_account) _ h in
    let st = settle-Settled n c.staking_pool c.staker_account pool1 s se sound in
    let (pending, ae, h2) = >>=-eq-ok (accrue n pool1 s) _ h1 in
    let due = accrue-eq n c.staking_pool pool1 c.staker_account s st sound ae in
    let ((pool2, mid), de, h3) = >>=-eq-ok (pay_or_forfeit rt user n pending pool1 c.bank) _ h2 in
    let (b, te, h4) =
      >>=-eq-ok (rt.token_transfer rt.pool_key pool2.brain_vault ata s.staked_amount mid) _ h3 in
    let (p, re, h5) = >>=-eq-ok (remove_stake s.staked_amount n pool2) _ h4 in
    let e : entitlement now c.staking_pool c.staker_account ≡ (if n == 0 then 0 else pending) =
      entitled n pending c due in
    let d = pay_or_forfeit-Disposed rt user n pending pool1 pool2 c.bank mid de in
    (
      mid,
      subst
          (λ x.
            Unstaked rt user ata n (entitlement now c.staking_pool c.staker_account) c x.0 mid x.1)
          (ok-injective h5)
          (unstaked rt user ata n pending (entitlement now c.staking_pool c.staker_account) c pool1
            pool2 p s mid b e st due
            (subst (λ t. Disposed rt user n pending t pool1 pool2 c.bank mid) (sym e) d) te re),
    )
