-- ===== src/Rewards/Success.antt =====
-- Bounds under which the reward arithmetic of claim.rs and unstake.rs never overflows.
use dlmm_auto_sell_assets_in.Base.{
  ◌⊎◌, true, ℕ, ◌+◌, ◌-◌, ◌*◌, ◌^◌, ◌≡◌, ◌≢◌, ◌≤◌, ◌<◌, inl, inr, arith, refl, ap, Bool-cases, ltb,
  ◌==◌,
}
use dlmm_auto_sell_assets_in.Base.Numbers.{mul-mono_left, mul-mono_right}
use dlmm_auto_sell_assets_in.Errors.{ok}
use dlmm_auto_sell_assets_in.Checked.{checked_add, checked_sub, checked_mul, checked_div, try_from}
use dlmm_auto_sell_assets_in.State.{Pubkey, StakingPool, StakerAccount}
use dlmm_auto_sell_assets_in.Runtime.{Bank, Runtime, sub_lamports, add_lamports, update}
use dlmm_auto_sell_assets_in.Rewards.{
  weighted, accumulated, owed_since, settle_pending, change_tier, settle, owed_total, pause_if_low,
  pay_rewards,
}
use dlmm_auto_sell_assets_in.Rewards.Shares.{share, weight_of, Settled}

-- The sizes that keep every intermediate result in its word, at any of the four multipliers, for a staker
-- whose weight is part of the pool's and whose debt is at most its share.
pub record Fits (pool : StakingPool) (s : StakerAccount) : Type 0 where
  pub multiplier : s.current_multiplier ≤ 3
  pub product : s.staked_amount * 3 * pool.reward_per_share < 2 ^ 128
  pub room : pool.total_weighted_stake + s.staked_amount * 3 < 2 ^ 128
  pub words : s.pending_rewards + share (s.staked_amount * 3) pool.reward_per_share < 2 ^ 64
  pub counted : weight_of s ≤ pool.total_weighted_stake
  pub sound : s.reward_debt ≤ share (weight_of s) pool.reward_per_share

pub weighted-ok : (a m : ℕ) → a * m < 2 ^ 128 → weighted a m ≡ ok (a * m)
unfolding weighted checked_mul try_from
weighted-ok a m h = ground arith

accumulated-ok : (w rps : ℕ) → w * rps < 2 ^ 128 → accumulated w rps ≡ ok (share w rps)
unfolding accumulated checked_mul checked_div try_from
accumulated-ok w rps h = ground arith

owed_since-ok : (a d : ℕ) → d ≤ a → a - d < 2 ^ 64 → owed_since a d ≡ ok (a - d)
unfolding owed_since checked_sub try_from
owed_since-ok a d h k = ground arith

-- The bounds at a multiplier `m` of at most 3.
module _ (pool : StakingPool) (s : StakerAccount) (f : Fits pool s) (m : ℕ) (h : m ≤ 3) where
  pub weight_bound : s.staked_amount * m ≤ s.staked_amount * 3
  weight_bound = mul-mono_right s.staked_amount m 3 h

  product_bound : s.staked_amount * m * pool.reward_per_share < 2 ^ 128
  product_bound = omega (
    arith,
    f.product,
    mul-mono_left (s.staked_amount * m) (s.staked_amount * 3) pool.reward_per_share weight_bound,
  )

  pub share_bound :
      share (s.staked_amount * m) pool.reward_per_share
      ≤ share (s.staked_amount * 3) pool.reward_per_share
  share_bound = omega (
    arith,
    mul-mono_left (s.staked_amount * m) (s.staked_amount * 3) pool.reward_per_share weight_bound,
  )

  weighted_fits : weighted s.staked_amount m ≡ ok (s.staked_amount * m)
  weighted_fits = weighted-ok s.staked_amount m (omega (arith, weight_bound, f.room))

  accumulated_fits :
      accumulated (s.staked_amount * m) pool.reward_per_share
      ≡ ok (share (s.staked_amount * m) pool.reward_per_share)
  accumulated_fits = accumulated-ok (s.staked_amount * m) pool.reward_per_share product_bound

settle_pending-ok :
    (pool : StakingPool) (s : StakerAccount)
    → Fits pool s
    → (p : ℕ) × (settle_pending pool s ≡ ok p)
unfolding settle_pending checked_add try_from
settle_pending-ok pool s f = elim (Bool-cases (ltb 0 s.current_multiplier)) [
  | inr zero_multiplier ↦ (s.pending_rewards, rw zero_multiplier refl)
  | inl positive ↦
      let acc = share (weight_of s) pool.reward_per_share in
      let le = share_bound pool s f s.current_multiplier f.multiplier in
      let owed : owed_since acc s.reward_debt ≡ ok (acc - s.reward_debt) =
        owed_since-ok acc s.reward_debt f.sound (omega (arith, f.words)) in
      (
        s.pending_rewards + (acc - s.reward_debt),
        rw
            (
              positive,
              weighted_fits pool s f s.current_multiplier f.multiplier,
              accumulated_fits pool s f s.current_multiplier f.multiplier,
              owed,
            )
            (ground (arith, f.words)),
      )
]

pub settle-ok :
    (n : ℕ) (pool : StakingPool) (s : StakerAccount)
    → n ≤ 3
    → Fits pool s
    → (pool' : StakingPool) × (s' : StakerAccount) × (settle n pool s ≡ ok (pool', s'))
unfolding settle change_tier checked_add checked_sub try_from
settle-ok n pool s le f = elim (Bool-cases (n == s.current_multiplier)) [
  | inl same ↦ (pool, s, rw same refl)
  | inr changed ↦
      let (p, pe) = settle_pending-ok pool s f in
      (
        record pool {
          total_weighted_stake = pool.total_weighted_stake - weight_of s + s.staked_amount * n;
        },
        record s {
          pending_rewards = p;
          current_multiplier = n;
          reward_debt = share (s.staked_amount * n) pool.reward_per_share;
        },
        rw
            (
              changed,
              pe,
              weighted_fits pool s f s.current_multiplier f.multiplier,
              weighted_fits pool s f n le,
              accumulated_fits pool s f n le,
            )
            (ground (arith, f.counted, f.room, weight_bound pool s f n le)),
      )
]

-- What is owed after a settlement can be computed.
pub owed_total-ok :
    (n : ℕ) (pool pool' : StakingPool) (s s' : StakerAccount)
    → n ≤ 3
    → Fits pool s
    → Settled n pool pool' s s'
    → (acc : ℕ) × (total : ℕ) × (owed_total n pool' s' ≡ ok (acc, total))
unfolding owed_total checked_add try_from
owed_total-ok n pool pool' s s' le f st =
    let rps : pool'.reward_per_share ≡ pool.reward_per_share = ground (arith, st.pool_frame) in
    let amount : s'.staked_amount ≡ s.staked_amount = ground (arith, st.staker_frame) in
    let mult : s'.current_multiplier ≡ n = ground (arith, st.staker_frame) in
    let acc = share (s.staked_amount * n) pool.reward_per_share in
    let weight : weight_of s' ≡ s.staked_amount * n = rw (amount, mult) refl in
    let scaled : share (weight_of s') pool.reward_per_share ≡ acc =
      ap (λ w. share w pool.reward_per_share) weight in
    let sound : s'.reward_debt ≤ acc = elim st.debt [
      | inl reset ↦ omega (arith, reset, scaled)
      | inr same ↦
          let debt : s'.reward_debt ≡ s.reward_debt =
            ap (λ (x : StakerAccount). x.reward_debt) same in
          let w : share (weight_of s') pool.reward_per_share
              ≡ share (weight_of s) pool.reward_per_share =
            ap (λ (x : StakerAccount). share (weight_of x) pool.reward_per_share) same in
          omega (arith, debt, w, scaled, f.sound)
    ] in
    let top = share_bound pool s f n le in
    let old = share_bound pool s f s.current_multiplier f.multiplier in
    let owed : owed_since acc s'.reward_debt ≡ ok (acc - s'.reward_debt) =
      owed_since-ok acc s'.reward_debt sound (omega (arith, f.words)) in
    (
      acc,
      s'.pending_rewards + (acc - s'.reward_debt),
      rw (amount, rps, weighted_fits pool s f n le, accumulated_fits pool s f n le, owed)
          (ground (arith, st.pending, scaled, f.words)),
    )

-- A payment that leaves the vault its rent-exempt minimum goes through.
pub pay_rewards-ok :
    (rt : Runtime) (user : Pubkey) (total : ℕ) (pool : StakingPool) (bank : Bank)
    → user ≢ pool.reward_vault
    → (total ≡ 0) ⊎ (rt.may_debit pool.reward_vault ≡ true)
    → rt.minimum_balance 0 + total ≤ bank.lamports pool.reward_vault
    → bank.lamports user + total < 2 ^ 64
    → (pool' : StakingPool) × (bank' : Bank) × (pay_rewards rt user total pool bank
        ≡ ok (pool', bank'))
unfolding pay_rewards sub_lamports add_lamports checked_sub checked_add try_from
pay_rewards-ok rt user total pool bank ne debit rent room =
    let credited = record bank {
      lamports =
          update (update bank.lamports pool.reward_vault (bank.lamports pool.reward_vault - total))
            user (bank.lamports user + total);
    } in
    (pause_if_low (credited.lamports pool.reward_vault) pool, credited, ground arith)
