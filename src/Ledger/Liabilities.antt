-- ===== src/Ledger/Liabilities.antt =====
-- What the pool owes its stakers, scaled by the precision so that no rounding is lost.
use dlmm_auto_sell_assets_in.Base.{
  ℕ, ◌+◌, ◌-◌, ◌*◌, ◌≡◌, ◌≤◌, arith, Bool-cases, inl, inr, ◌==◌, if◌then◌else◌, [], ◌∷◌,
}
use dlmm_auto_sell_assets_in.Base.Assoc.{Assoc, sum_by, Each}
use dlmm_auto_sell_assets_in.Constants.{precision}
use dlmm_auto_sell_assets_in.State.{Pubkey, StakerAccount}
use dlmm_auto_sell_assets_in.Runtime.{Runtime}
use dlmm_auto_sell_assets_in.Rewards.{StakerContext}
use dlmm_auto_sell_assets_in.Rewards.Shares.{weight_of}
use dlmm_auto_sell_assets_in.Staking.Claim.Payout.{IsSound, Claimed}

-- The pending rewards and the unrounded growth of the share since the debt was set.
abbrev pub liability : ℕ → StakerAccount → ℕ
liability rps s = precision * s.pending_rewards + (weight_of s * rps - precision * s.reward_debt)

pub debt-le :
    (rps : ℕ) (s : StakerAccount) → IsSound rps s → precision * s.reward_debt ≤ weight_of s * rps
debt-le rps s h = omega arith

-- When the accumulator grows, the liabilities grow by the total weight times the increment.
pub liabilities-grow :
    (rps inc : ℕ) (m : Assoc StakerAccount)
    → Each (IsSound rps) m
    → sum_by (liability (rps + inc)) m ≡ sum_by (liability rps) m + inc * sum_by weight_of m
liabilities-grow rps inc [] h = omega arith
liabilities-grow rps inc ((k, s) ∷ m) h =
    omega (arith, debt-le rps s h.0, liabilities-grow rps inc m h.1)

-- A claim lowers the liability by what it pays; a change of tier may round it up by less than one
-- lamport.
pub Claimed-liability :
    (rt : Runtime) (user : Pubkey) (n total : ℕ) (c c' : StakerContext)
    → IsSound c.staking_pool.reward_per_share c.staker_account
    → Claimed rt user n total c c'
    → liability c.staking_pool.reward_per_share c'.staker_account + precision * total
      ≤ liability c.staking_pool.reward_per_share c.staker_account
        + (if n == c.staker_account.current_multiplier then 0 else precision)
Claimed-liability rt user n total c c' sound cl =
    elim (Bool-cases (n == c.staker_account.current_multiplier)) [
      | inl same ↦
          let w : weight_of c'.staker_account ≡ weight_of c.staker_account =
            ground (arith, cl.staker_frame) in
          let wr : weight_of c'.staker_account * c.staking_pool.reward_per_share
              ≡ weight_of c.staker_account * c.staking_pool.reward_per_share =
            rw w in
          rw same (omega (arith, cl.value, cl.sound))
      | inr changed ↦ rw changed (omega (arith, cl.value, cl.sound))
    ]
