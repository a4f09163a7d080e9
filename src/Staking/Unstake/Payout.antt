-- ===== src/Staking/Unstake/Payout.antt =====
-- What a successful unstake does to the pool and the balances.
use dlmm_auto_sell_assets_in.Base.{
  ℕ, ◌+◌, ◌-◌, ◌*◌, ◌≡◌, ◌≢◌, ◌≤◌, ◌<◌, ◌⊎◌, inl, inr, arith, refl, subst, ◌/◌, true, ltb, ◌==◌,
  ◌&&◌, if◌then◌else◌, Bool-cases,
}
use dlmm_auto_sell_assets_in.Base.Numbers.{div-mul-le}
use dlmm_auto_sell_assets_in.Errors.{ok, >>=-eq-ok, ok-injective}
use dlmm_auto_sell_assets_in.Checked.{checked_add, checked_mul, checked_div}
use dlmm_auto_sell_assets_in.Constants.{precision}
use dlmm_auto_sell_assets_in.State.{Pubkey, StakingPool, StakerAccount}
use dlmm_auto_sell_assets_in.Runtime.{Bank, Runtime}
use dlmm_auto_sell_assets_in.Rewards.{owed_total}
use dlmm_auto_sell_assets_in.Rewards.Shares.{share, weight_of, owed_total-eq, Settled}
use dlmm_auto_sell_assets_in.Rewards.Payments.{Paid, pay_rewards-Paid}
use dlmm_auto_sell_assets_in.Staking.Claim.Payout.{IsSound}
use dlmm_auto_sell_assets_in.Staking.Unstake.{accrue, forfeit, pay_or_forfeit}

-- The accumulator after `amount` is spread over the weight that remains: the forfeit is lost when there is
-- none.
abbrev pub spread : ℕ → ℕ → ℕ → ℕ
spread rps weight amount = if weight == 0 then rps else rps + amount * precision / weight

-- The second step: what is paid or forfeited out of `pending`.
pub record Disposed (rt : Runtime) (user : Pubkey) (n pending total : ℕ) (pool pool' : StakingPool)
    (bank mid : Bank) : Type 0 where
  pub pool_frame :
      pool' ≡ record pool { is_paused = pool'.is_paused; reward_per_share = pool'.reward_per_share }
  pub total_paid : total ≡ (if n == 0 then 0 else pending)
  pub grows : pool.reward_per_share ≤ pool'.reward_per_share
  pub growth :
      (pool'.reward_per_share - pool.reward_per_share) * pool.total_weighted_stake
      ≤ (if n == 0 then pending else 0) * precision
  pub unchanged : n ≢ 0 → pool'.reward_per_share ≡ pool.reward_per_share
  pub forfeited :
      n ≡ 0
      → pool'.reward_per_share ≡ spread pool.reward_per_share pool.total_weighted_stake pending
  pub debited : 0 < total → rt.may_debit pool.reward_vault ≡ true
  pub rent_kept : 0 < total → rt.minimum_balance 0 + total ≤ bank.lamports pool.reward_vault
  pub vault_bound : bank.lamports pool.reward_vault ≤ mid.lamports pool.reward_vault + total
  pub vault :
      user ≢ pool.reward_vault
      → mid.lamports pool.reward_vault + total ≡ bank.lamports pool.reward_vault
  pub user_paid : user ≢ pool.reward_vault → mid.lamports user ≡ bank.lamports user + total
  pub tokens : mid.tokens ≡ bank.tokens

-- The growth of the accumulator by a forfeit.
forfeit_growth :
    (pending : ℕ) (pool pool' : StakingPool)
    → forfeit pending pool ≡ ok pool'
    → (pool'.reward_per_share - pool.reward_per_share ≡ 0)
      ⊎ (pool'.reward_per_share - pool.reward_per_share
          ≡ pending * precision / pool.total_weighted_stake)
unfolding forfeit checked_mul checked_div checked_add
forfeit_growth pending pool pool' h =
    elim (Bool-cases (ltb 0 pending && ltb 0 pool.total_weighted_stake)) [
      | inl redistributed ↦ inr (ground arith)
      | inr kept ↦ inl (ground arith)
    ]

forfeit-eq :
    (pending : ℕ) (pool pool' : StakingPool)
    → forfeit pending pool ≡ ok pool'
    → (pool' ≡ record pool { reward_per_share = pool'.reward_per_share })
      × (pool.reward_per_share ≤ pool'.reward_per_share)
      × ((pool'.reward_per_share - pool.reward_per_share) * pool.total_weighted_stake
          ≤ pending * precision)
unfolding forfeit checked_mul checked_div checked_add
forfeit-eq pending pool pool' h = (
  ground arith,
  ground arith,
  elim (forfeit_growth pending pool pool' h) [
    | inl e ↦ rw e (omega arith)
    | inr e ↦ rw e (div-mul-le (pending * precision) pool.total_weighted_stake)
  ],
)

forfeit_spreads :
    (pending : ℕ) (pool pool' : StakingPool)
    → forfeit pending pool ≡ ok pool'
    → pool'.reward_per_share ≡ spread pool.reward_per_share pool.total_weighted_stake pending
unfolding forfeit checked_mul checked_div checked_add
forfeit_spreads pending pool pool' h =
    elim (Bool-cases (ltb 0 pending && ltb 0 pool.total_weighted_stake)) [
      | inl redistributed ↦ ground arith
      | inr kept ↦ elim (Bool-cases (pool.total_weighted_stake == 0)) [
        | inl empty ↦ rw empty (ground arith)
        | inr remaining ↦
            let z : pending ≡ 0 = ground arith in
            let same = ok-injective (rw kept at h) in rw (remaining, z) (ground arith)
      ]
    ]

spread_nothing : (rps weight : ℕ) → rps ≡ spread rps weight 0
spread_nothing rps weight = elim (Bool-cases (weight == 0)) [
  | inl empty ↦ rw empty refl
  | inr remaining ↦ rw remaining (grind arith)
]

forfeited-Disposed :
    (rt : Runtime) (user : Pubkey) (n pending : ℕ) (pool pool' : StakingPool) (bank : Bank)
    → n ≡ 0
    → forfeit pending pool ≡ ok pool'
    → Disposed rt user n pending 0 pool pool' bank bank
forfeited-Disposed rt user n pending pool pool' bank z h =
    let (frame, grows, growth) = forfeit-eq pending pool pool' h in
    record {
      pool_frame = ground (arith, frame);
      total_paid = ground arith;
      grows = grows;
      growth = let e : (n == 0) ≡ true = ground arith in rw e growth;
      unchanged = λ ne. absurd (ne z);
      forfeited = λ _. forfeit_spreads pending pool pool' h;
      debited = λ positive. absurd (omega arith);
      rent_kept = λ positive. absurd (omega arith);
      vault_bound = omega arith;
      vault = λ ne. omega arith;
      user_paid = λ ne. omega arith;
      tokens = refl;
    }

nothing-Disposed :
    (rt : Runtime) (user : Pubkey) (n : ℕ) (pool : StakingPool) (bank : Bank)
    → Disposed rt user n 0 0 pool pool bank bank
nothing-Disposed rt user n pool bank = record {
  pool_frame = refl;
  total_paid = ground arith;
  grows = omega arith;
  growth =
      let e : pool.reward_per_share - pool.reward_per_share ≡ 0 = omega arith in rw e (omega arith);
  unchanged = λ ne. refl;
  forfeited = λ _. spread_nothing pool.reward_per_share pool.total_weighted_stake;
  debited = λ positive. absurd (omega arith);
  rent_kept = λ positive. absurd (omega arith);
  vault_bound = omega arith;
  vault = λ ne. omega arith;
  user_paid = λ ne. omega arith;
  tokens = refl;
}

Paid-Disposed :
    (rt : Runtime) (user : Pubkey) (n pending : ℕ) (pool pool' : StakingPool) (bank mid : Bank)
    → n ≢ 0
    → Paid rt user pending pool pool' bank mid
    → Disposed rt user n pending pending pool pool' bank mid
Paid-Disposed rt user n pending pool pool' bank mid nz paid =
    let same : pool'.reward_per_share ≡ pool.reward_per_share = ground (arith, paid.pool_frame) in
    record {
      pool_frame = ground (arith, paid.pool_frame);
      total_paid = ground arith;
      grows = omega arith;
      growth =
          let e : pool'.reward_per_share - pool.reward_per_share ≡ 0 = omega arith in
          rw e (omega arith);
      unchanged = λ ne. same;
      forfeited = λ z. absurd (nz z);
      debited = paid.debited;
      rent_kept = λ positive. paid.rent_kept;
      vault_bound = paid.vault_bound;
      vault = paid.vault;
      user_paid = paid.user_paid;
      tokens = paid.tokens;
    }

pub pay_or_forfeit-Disposed :
    (rt : Runtime) (user : Pubkey) (n pending : ℕ) (pool pool' : StakingPool) (bank mid : Bank)
    → pay_or_forfeit rt user n pending pool bank ≡ ok (pool', mid)
    → Disposed rt user n pending (if n == 0 then 0 else pending) pool pool' bank mid
unfolding pay_or_forfeit
pay_or_forfeit-Disposed rt user n pending pool pool' bank mid h = elim (Bool-cases (ltb 0 n)) [
  | inl late ↦
      let nz : n ≢ 0 = ground arith in
      let e : (if n == 0 then 0 else pending) ≡ pending = ground arith in
      rw e (elim (Bool-cases (ltb 0 pending)) [
        | inl some_due ↦
            Paid-Disposed rt user n pending pool pool' bank mid nz
              (pay_rewards-Paid rt user pending pool pool' bank mid (rw (late, some_due) at h))
        | inr none_due ↦
            let p0 : pending ≡ 0 = ground arith in
            let q = ok-injective (rw (late, none_due) at h) in
            subst (λ x. Disposed rt user n pending pending pool x.0 bank x.1) q
              (rw p0 (nothing-Disposed rt user n pool bank))
      ])
  | inr early ↦
      let z : n ≡ 0 = ground arith in
      let e : (if n == 0 then 0 else pending) ≡ 0 = ground arith in
      let (pool'', fe, he) = >>=-eq-ok (forfeit pending pool) _ (rw early at h) in
      rw e (
        subst (λ x. Disposed rt user n pending 0 pool x.0 bank x.1) (ok-injective he)
          (forfeited-Disposed rt user n pending pool pool'' bank z fe))
]

-- With a sound debt the pending rewards of the last step are all that the staker has earned.
pub accrue-eq :
    (n : ℕ) (pool pool' : StakingPool) (s s' : StakerAccount) {r : ℕ}
    → Settled n pool pool' s s'
    → IsSound pool.reward_per_share s
    → accrue n pool' s' ≡ ok r
    → r + s.reward_debt ≡ s.pending_rewards + share (weight_of s) pool.reward_per_share
unfolding accrue
accrue-eq n pool pool' s s' {r} st sound h =
    let m : s'.current_multiplier ≡ n = ground (arith, st.staker_frame) in
    let same : pool'.reward_per_share ≡ pool.reward_per_share = ground (arith, st.pool_frame) in
    elim (Bool-cases (ltb 0 n)) [
      | inl late ↦
          let ((acc, total), oe, h1) = >>=-eq-ok (owed_total n pool' s') _ (rw late at h) in
          let (ae, le, due) = owed_total-eq n pool' s' acc total oe in
          let ae' : acc ≡ share (weight_of s') pool.reward_per_share = rw (m, ← same) ae in
          let t : total ≡ r = ok-injective h1 in omega (arith, st.pending)
      | inr early ↦
          let t : s'.pending_rewards ≡ r = ok-injective (rw early at h) in
          let z : s'.current_multiplier ≡ 0 = ground arith in
          let w : weight_of s' ≡ 0 = rw z (omega arith) in
          let sh : share (weight_of s') pool.reward_per_share ≡ 0 = rw w (omega arith) in
          let d : IsSound pool.reward_per_share s' = ground (arith, st.debt) in
          omega (arith, st.pending)
    ]
