-- ===== src/Ledger/Consistency.antt =====
-- The pool's totals are the sums over the stakers, and no debt exceeds its share: what every staking
-- instruction keeps.
use dlmm_auto_sell_assets_in.Base.{ℕ, ◌+◌, ◌≡◌, ◌≤◌, arith, some, none}
use dlmm_auto_sell_assets_in.Base.Int.{ℤ}
use dlmm_auto_sell_assets_in.Base.Assoc.{
  Assoc, lookup, insert, erase, sum_by, Each, Each-insert, Each-erase, Each-map, sum_by-insert,
  sum_by-insert_new, sum_by-erase,
}
use dlmm_auto_sell_assets_in.State.{Pubkey, StakingPool, StakerAccount}
use dlmm_auto_sell_assets_in.Runtime.{Bank, Runtime}
use dlmm_auto_sell_assets_in.Rewards.{StakerContext}
use dlmm_auto_sell_assets_in.Rewards.Shares.{share, weight_of}
use dlmm_auto_sell_assets_in.Staking.Stake.{new_staker}
use dlmm_auto_sell_assets_in.Staking.Claim.Payout.{IsSound, Claimed}
use dlmm_auto_sell_assets_in.Staking.Unstake.Outcome.{Unstaked}
use dlmm_auto_sell_assets_in.Staking.Deposit.Accounting.{deposited_pool}
use dlmm_auto_sell_assets_in.Admin.Changes.{SameReserves}
use dlmm_auto_sell_assets_in.Ledger.{Ledger, put_staker, context_of}

abbrev pub staked_of : StakerAccount → ℕ
staked_of s = s.staked_amount

pub record IsConsistent (l : Ledger) : Type 0 where
  pub staked : l.staking_pool.total_staked ≡ sum_by staked_of l.stakers
  pub weight : l.staking_pool.total_weighted_stake ≡ sum_by weight_of l.stakers
  pub sound : Each (IsSound l.staking_pool.reward_per_share) l.stakers

share_mono : (w a b : ℕ) → a ≤ b → share w a ≤ share w b
share_mono w a b h = grind arith

-- A growing accumulator keeps every debt sound.
pub Each-IsSound-mono :
    (a b : ℕ) (m : Assoc StakerAccount) → a ≤ b → Each (IsSound a) m → Each (IsSound b) m
Each-IsSound-mono a b m h =
    Each-map (IsSound a) (IsSound b) m λ s d. omega (arith, share_mono (weight_of s) a b h)

module _ (rt : Runtime) (user : Pubkey) where
  -- A claim keeps the totals and the debts in step.
  pub Claimed-IsConsistent :
      (n total : ℕ) (l : Ledger) (s : StakerAccount) (c : StakerContext)
      → lookup user l.stakers ≡ some s
      → Claimed rt user n total (context_of l s) c
      → IsConsistent l
      → IsConsistent (put_staker user l c)
  Claimed-IsConsistent n total l s c found cl h =
      let s' = c.staker_account in
      let staked' = sum_by-insert staked_of user s s' l.stakers found in
      let weight' = sum_by-insert weight_of user s s' l.stakers found in
      record {
        staked = ground (arith, staked', h.staked, cl.pool_frame, cl.staker_frame);
        weight = ground (arith, weight', h.weight, cl.weight);
        sound =
            let e : c.staking_pool.reward_per_share ≡ l.staking_pool.reward_per_share =
              ground (arith, cl.pool_frame) in
            rw e (
              Each-insert (IsSound l.staking_pool.reward_per_share) user s' l.stakers cl.sound
                h.sound);
      }

  pub Unstaked-IsConsistent :
      (ata : Pubkey) (n total : ℕ) (l : Ledger) (s : StakerAccount) (pool : StakingPool)
      (mid bank : Bank)
      → lookup user l.stakers ≡ some s
      → Unstaked rt user ata n total (context_of l s) pool mid bank
      → IsConsistent l
      → IsConsistent (record { staking_pool = pool; stakers = erase user l.stakers; bank = bank })
  Unstaked-IsConsistent ata n total l s pool mid bank found u h =
      let staked' = sum_by-erase staked_of user s l.stakers found in
      let weight' = sum_by-erase weight_of user s l.stakers found in
      record {
        staked = omega (arith, staked', h.staked, u.stake_removed);
        weight = omega (arith, weight', h.weight, u.weight_removed);
        sound = Each-erase (IsSound pool.reward_per_share) user l.stakers (
            Each-IsSound-mono l.staking_pool.reward_per_share pool.reward_per_share l.stakers
              u.grows h.sound);
      }

  pub staked-IsConsistent :
      (now : ℤ) (bump amount : ℕ) (l : Ledger) (bank : Bank)
      → lookup user l.stakers ≡ none
      → IsConsistent l
      → IsConsistent (record {
        staking_pool = record (l.staking_pool) {
          total_staked = l.staking_pool.total_staked + amount;
        };
        stakers = insert user (new_staker user amount now bump) l.stakers;
        bank = bank;
      })
  staked-IsConsistent now bump amount l bank vacant h =
      let staked' =
        sum_by-insert_new staked_of user (new_staker user amount now bump) l.stakers vacant in
      let weight' =
        sum_by-insert_new weight_of user (new_staker user amount now bump) l.stakers vacant in
      record {
        staked = omega (arith, staked', h.staked);
        weight = omega (arith, weight', h.weight);
        sound =
            Each-insert (IsSound l.staking_pool.reward_per_share) user
              (new_staker user amount now bump) l.stakers (omega arith) h.sound;
      }

pub deposited-IsConsistent :
    (net : ℕ) (l : Ledger) (bank : Bank)
    → IsConsistent l
    → IsConsistent (record l { staking_pool = deposited_pool net l.staking_pool; bank = bank })
deposited-IsConsistent net l bank h = record {
  staked = h.staked;
  weight = h.weight;
  sound = Each-IsSound-mono _ _ l.stakers (omega arith) h.sound;
}

-- A change of the keys, the bounds or the pause keeps the books as they are.
pub reconfigured-IsConsistent :
    (l : Ledger) (pool : StakingPool)
    → SameReserves l.staking_pool pool
    → IsConsistent l
    → IsConsistent (record l { staking_pool = pool })
reconfigured-IsConsistent l pool same h =
    let rps : pool.reward_per_share ≡ l.staking_pool.reward_per_share = ground arith in
    record {
      staked = ground (arith, h.staked);
      weight = ground (arith, h.weight);
      sound = rw rps h.sound;
    }
