-- ===== src/Rewards/Shares.antt =====
-- What the checked reward computations return when they succeed, as plain arithmetic.
use dlmm_auto_sell_assets_in.Base.{
  ℕ, ◌+◌, ◌-◌, ◌*◌, ◌/◌, ◌≡◌, ◌≤◌, ◌⊎◌, inl, inr, arith, Bool-cases, ltb, ◌==◌,
}
use dlmm_auto_sell_assets_in.Errors.{ok, >>=-eq-ok}
use dlmm_auto_sell_assets_in.Checked.{checked_add, checked_sub}
use dlmm_auto_sell_assets_in.Constants.{precision}
use dlmm_auto_sell_assets_in.State.{StakingPool, StakerAccount}
use dlmm_auto_sell_assets_in.Rewards.{
  weighted, accumulated, owed_since, settle_pending, change_tier, settle, owed_total,
}

-- The share of a weight in the accumulator: the rewards since the pool began, in lamports.
abbrev pub share : ℕ → ℕ → ℕ
share weight reward_per_share = weight * reward_per_share / precision

-- The weight of a stake.
abbrev pub weight_of : StakerAccount → ℕ
weight_of s = s.staked_amount * s.current_multiplier

pub weighted-eq : (a m : ℕ) {r : ℕ} → weighted a m ≡ ok r → r ≡ a * m
unfolding weighted
weighted-eq a m h = ground arith

pub accumulated-eq : (w rps : ℕ) {r : ℕ} → accumulated w rps ≡ ok r → r ≡ share w rps
unfolding accumulated
accumulated-eq w rps h = ground arith

pub owed_since-eq : (a d : ℕ) {r : ℕ} → owed_since a d ≡ ok r → (d ≤ a) × (r ≡ a - d)
unfolding owed_since
owed_since-eq a d h = ground arith

-- A settlement at a positive old multiplier moves what has accrued into the pending rewards.
pub settle_pending-eq :
    (pool : StakingPool) (s : StakerAccount) {r : ℕ}
    → settle_pending pool s ≡ ok r
    → s.reward_debt ≤ share (weight_of s) pool.reward_per_share
    → r + s.reward_debt ≡ s.pending_rewards + share (weight_of s) pool.reward_per_share
unfolding settle_pending weighted accumulated owed_since checked_add
settle_pending-eq pool s h debt = elim (Bool-cases (ltb 0 s.current_multiplier)) [
  | inl positive ↦ ground arith
  | inr zero_multiplier ↦ grind arith
]

-- The settlement of a tier change, as equations between the accounts before and after it.
pub record Settled (new_mult : ℕ) (pool pool' : StakingPool) (s s' : StakerAccount) : Type 0 where
  pub pool_frame : pool' ≡ record pool { total_weighted_stake = pool'.total_weighted_stake }
  pub staker_frame : s' ≡ record s {
    pending_rewards = s'.pending_rewards;
    current_multiplier = new_mult;
    reward_debt = s'.reward_debt;
  }
  pub weight : pool'.total_weighted_stake + weight_of s ≡ pool.total_weighted_stake + weight_of s'
  pub pending :
      s'.pending_rewards + s.reward_debt + share (weight_of s') pool.reward_per_share
      ≡ s.pending_rewards + share (weight_of s) pool.reward_per_share + s'.reward_debt
  pub debt : (s'.reward_debt ≡ share (weight_of s') pool.reward_per_share) ⊎ (s' ≡ s)

pub change_tier-Settled :
    (new_mult : ℕ) (pool : StakingPool) (s : StakerAccount) (pool' : StakingPool)
    (s' : StakerAccount)
    → change_tier new_mult pool s ≡ ok (pool', s')
    → s.reward_debt ≤ share (weight_of s) pool.reward_per_share
    → Settled new_mult pool pool' s s'
unfolding change_tier weighted accumulated checked_sub checked_add
change_tier-Settled n pool s pool' s' h d =
    let (p, e, k) = >>=-eq-ok (settle_pending pool s) _ h in
    let pending : p + s.reward_debt
        ≡ s.pending_rewards + share (weight_of s) pool.reward_per_share =
      settle_pending-eq pool s e d in
    record {
      pool_frame = ground arith;
      staker_frame = ground arith;
      weight = ground arith;
      pending = ground arith;
      debt = inl (ground arith);
    }

-- A successful settlement, of a changed tier or not.
pub settle-Settled :
    (new_mult : ℕ) (pool : StakingPool) (s : StakerAccount) (pool' : StakingPool)
    (s' : StakerAccount)
    → settle new_mult pool s ≡ ok (pool', s')
    → s.reward_debt ≤ share (weight_of s) pool.reward_per_share
    → Settled new_mult pool pool' s s'
unfolding settle
settle-Settled n pool s pool' s' h d = elim (Bool-cases (n == s.current_multiplier)) [
  | inl same ↦ record {
    pool_frame = ground arith;
    staker_frame = ground arith;
    weight = ground arith;
    pending = ground arith;
    debt = inr (ground arith);
  }
  | inr changed ↦ change_tier-Settled n pool s pool' s' (rw changed at h) d
]

-- The amounts of a claim, when they can be computed.
pub owed_total-eq :
    (n : ℕ) (pool : StakingPool) (s : StakerAccount) (acc total : ℕ)
    → owed_total n pool s ≡ ok (acc, total)
    → (acc ≡ share (s.staked_amount * n) pool.reward_per_share)
      × (s.reward_debt ≤ acc)
      × (total + s.reward_debt ≡ s.pending_rewards + acc)
unfolding owed_total weighted accumulated owed_since checked_add
owed_total-eq n pool s acc total h = ground arith
