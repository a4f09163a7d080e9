-- ===== src/Staking/Deposit/Split.antt =====
-- How a deposit (deposit_rewards.rs) is split, and what its accumulator step promises.
use dlmm_auto_sell_assets_in.Base.{
  ℕ, ◌+◌, ◌-◌, ◌*◌, ◌/◌, ◌≡◌, ◌≢◌, ◌≤◌, ◌<◌, inl, inr, arith, sym, false, ltb, Bool-cases,
  if◌then◌else◌,
}
use dlmm_auto_sell_assets_in.Base.Numbers.{div-mul-le, lt-suc-div, mul-mono_right}
use dlmm_auto_sell_assets_in.Errors.{ok, >>=-eq-ok, ok-injective}
use dlmm_auto_sell_assets_in.Constants.{precision, min_reward_deposit, max_protocol_fee_bps}
use dlmm_auto_sell_assets_in.State.{Pubkey, StakingPool}
use dlmm_auto_sell_assets_in.Runtime.{Bank, Runtime}
use dlmm_auto_sell_assets_in.Runtime.Laws.{IsRuntime}
use dlmm_auto_sell_assets_in.Staking.Deposit.{transfer_deposit, handle_deposit_rewards}
use dlmm_auto_sell_assets_in.Staking.Deposit.Accounting.{fee_of, net_of, handle_deposit-eq}

-- A rate within the maximum takes at most a twentieth.
fee_bound : (amount bps : ℕ) → bps ≤ max_protocol_fee_bps → amount * bps / 10000 * 20 ≤ amount
fee_bound amount bps h =
    let scaled : amount * bps ≤ amount * 500 = mul-mono_right amount bps 500 h in
    omega (arith, div-mul-le (amount * bps) 10000)

module _ (rt : Runtime) (laws : IsRuntime rt) where
  -- The balances after the two transfers, where treasury, vault and payer are three accounts.
  split_transfer :
      (authority : Pubkey) (fee net : ℕ) (pool : StakingPool) (bank bank' : Bank)
      → authority ≢ pool.reward_vault
      → authority ≢ pool.treasury
      → pool.treasury ≢ pool.reward_vault
      → transfer_deposit rt authority fee net pool bank ≡ ok bank'
      → (bank'.lamports pool.treasury ≡ bank.lamports pool.treasury + fee)
        × (bank'.lamports pool.reward_vault ≡ bank.lamports pool.reward_vault + net)
        × (bank'.lamports authority + fee + net ≡ bank.lamports authority)
  unfolding transfer_deposit
  split_transfer authority fee net pool bank bank' nv nt apart h =
      let (mid, fe, h1) =
        >>=-eq-ok
          (if ltb 0 fee then rt.system_transfer authority pool.treasury fee bank else ok bank) _
          h in
      let v = laws.system.target authority pool.reward_vault net mid bank' h1 nv in
      let a = laws.system.source authority pool.reward_vault net mid bank' h1 nv in
      let t =
        laws.system.other authority pool.reward_vault pool.treasury net mid bank' h1
          (λ e. nt (sym e)) apart in
      elim (Bool-cases (ltb 0 fee)) [
        | inl charged ↦
            let ce = rw charged at fe in
            let t' = laws.system.target authority pool.treasury fee bank mid ce nt in
            let a' = laws.system.source authority pool.treasury fee bank mid ce nt in
            let v' =
              laws.system.other authority pool.treasury pool.reward_vault fee bank mid ce
                (λ e. nv (sym e)) (λ e. apart (sym e)) in
            (omega (arith, t, t'), omega (arith, v, v'), omega (arith, a, a'))
        | inr free ↦
            let r : bank ≡ mid = ok-injective (rw free at fe) in
            let z : fee ≡ 0 = ground arith in
            rw (r, z) (omega (arith, t), omega (arith, v), omega (arith, a))
      ]

  -- A deposit that succeeds, over transfers that move what they are asked to and between three different
  -- accounts for payer, treasury and vault, is of at least the minimum, to a pool that runs and has weight. The fee,
  -- which is at most a twentieth of the amount where the pool's rate is in bounds, goes to the treasury
  -- and the rest to the vault; the payer loses the whole amount, the distributed total grows by the net
  -- amount, and the accumulator, over all the weight, by no more than the net amount and by less than
  -- one unit of weight below it.
  pub deposit_split :
      (authority : Pubkey) (amount : ℕ) (pool pool' : StakingPool) (bank bank' : Bank)
      → authority ≢ pool.reward_vault
      → authority ≢ pool.treasury
      → pool.treasury ≢ pool.reward_vault
      → pool.protocol_fee_bps ≤ max_protocol_fee_bps
      → handle_deposit_rewards rt authority amount pool bank ≡ ok (pool', bank')
      → (min_reward_deposit ≤ amount)
        × (pool.is_paused ≡ false)
        × (0 < pool.total_weighted_stake)
        × (fee_of amount pool * 20 ≤ amount)
        × (bank'.lamports pool.treasury ≡ bank.lamports pool.treasury + fee_of amount pool)
        × (bank'.lamports pool.reward_vault ≡ bank.lamports pool.reward_vault + net_of amount pool)
        × (bank'.lamports authority + amount ≡ bank.lamports authority)
        × (pool'.total_rewards_distributed ≡ pool.total_rewards_distributed + net_of amount pool)
        × ((pool'.reward_per_share - pool.reward_per_share) * pool.total_weighted_stake
            ≤ net_of amount pool * precision)
        × (net_of amount pool * precision
            < (pool'.reward_per_share - pool.reward_per_share + 1) * pool.total_weighted_stake)
  deposit_split authority amount pool pool' bank bank' nv nt apart bounded h =
      let (runs, large, weight, le, moved, eq) =
        handle_deposit-eq rt authority amount pool pool' bank bank' h in
      let fee = fee_of amount pool in
      let net = net_of amount pool in
      let w = pool.total_weighted_stake in
      let (treasury, vault, payer) =
        split_transfer authority fee net pool bank bank' nv nt apart moved in
      let step : pool'.reward_per_share - pool.reward_per_share ≡ net * precision / w =
        ground (arith, eq) in
      (
        large,
        runs,
        weight,
        fee_bound amount pool.protocol_fee_bps bounded,
        treasury,
        vault,
        omega (arith, payer),
        ground (arith, eq),
        rw step (div-mul-le (net * precision) w),
        rw step (lt-suc-div (net * precision) w weight),
      )
