-- ===== src/Staking/Claim/Success.antt =====
-- When a claim (claim.rs) goes through.
use dlmm_auto_sell_assets_in.Base.{
  ℕ, ◌+◌, ◌^◌, ◌≡◌, ◌≢◌, ◌≤◌, ◌<◌, ◌⊎◌, true, inl, inr, arith, refl, Bool-cases, false, ◌==◌,
  if◌then◌else◌,
}
use dlmm_auto_sell_assets_in.Base.Int.{ℤ}
use dlmm_auto_sell_assets_in.Errors.{ok}
use dlmm_auto_sell_assets_in.State.{Pubkey, StakingPool, StakerAccount}
use dlmm_auto_sell_assets_in.Runtime.{Bank, Runtime}
use dlmm_auto_sell_assets_in.Multiplier.{get_multiplier}
use dlmm_auto_sell_assets_in.Multiplier.Tiers.{get_multiplier-le}
use dlmm_auto_sell_assets_in.Rewards.{StakerContext, owed_total, settle}
use dlmm_auto_sell_assets_in.Rewards.Shares.{
  share, weight_of, owed_total-eq, Settled, settle-Settled,
}
use dlmm_auto_sell_assets_in.Rewards.Success.{Fits, settle-ok, owed_total-ok, pay_rewards-ok}
use dlmm_auto_sell_assets_in.Staking.Claim.{pay_claim, claim_owed, handle_claim}
use dlmm_auto_sell_assets_in.Staking.Claim.Payout.{entitlement}

-- What the vault has to hold for a payment: nothing for none, and else the amount and its rent.
abbrev pub needed : Runtime → ℕ → ℕ
needed rt amount = if amount == 0 then 0 else rt.minimum_balance 0 + amount

claim_owed-ok :
    (rt : Runtime) (user : Pubkey) (now : ℤ) (n acc total : ℕ) (pool : StakingPool)
    (s : StakerAccount) (bank : Bank)
    → owed_total n pool s ≡ ok (acc, total)
    → user ≢ pool.reward_vault
    → (total ≡ 0) ⊎ (rt.may_debit pool.reward_vault ≡ true)
    → needed rt total ≤ bank.lamports pool.reward_vault
    → bank.lamports user + total < 2 ^ 64
    → (c' : StakerContext) × (claim_owed rt user now n pool s bank ≡ ok c')
unfolding claim_owed pay_claim
claim_owed-ok rt user now n acc total pool s bank oe ne debit rent room =
    elim (Bool-cases (total == 0)) [
      | inl nothing ↦
          (record { staking_pool = pool; staker_account = s; bank = bank }, rw (oe, nothing) refl)
      | inr due ↦
          let (pool', bank', e) =
            pay_rewards-ok rt user total pool bank ne debit (ground arith) room in
          (
            record {
              staking_pool = pool';
              staker_account = record s {
                reward_debt = acc;
                pending_rewards = 0;
                last_claim_timestamp = now;
              };
              bank = bank';
            },
            rw (oe, due, e) refl,
          )
    ]

-- Past the cliff, what a settled staker is owed is its entitlement before the settlement.
entitlement-Settled :
    (now : ℤ) (n acc total : ℕ) (pool pool' : StakingPool) (s s' : StakerAccount)
    → get_multiplier s.stake_timestamp now ≡ n
    → n ≢ 0
    → Settled n pool pool' s s'
    → owed_total n pool' s' ≡ ok (acc, total)
    → s.reward_debt ≤ share (weight_of s) pool.reward_per_share
    → entitlement now pool s ≡ total
entitlement-Settled now n acc total pool pool' s s' me positive st oe sound =
    let (ae, le, due) = owed_total-eq n pool' s' acc total oe in
    let m : s'.current_multiplier ≡ n = ground (arith, st.staker_frame) in
    let r : pool'.reward_per_share ≡ pool.reward_per_share = ground (arith, st.pool_frame) in
    let ae' : acc ≡ share (weight_of s') pool.reward_per_share = rw (m, ← r) ae in
    ground (arith, me, positive, st.pending, due, ae', sound)

-- A claim on a running pool is its settlement and what follows it.
claim_composes :
    (rt : Runtime) (user : Pubkey) (now : ℤ) (c c' : StakerContext) (pool1 : StakingPool)
    (s1 : StakerAccount)
    → c.staking_pool.is_paused ≡ false
    → settle (get_multiplier c.staker_account.stake_timestamp now) c.staking_pool c.staker_account
      ≡ ok (pool1, s1)
    → (if get_multiplier c.staker_account.stake_timestamp now == 0
        then ok (record { staking_pool = pool1; staker_account = s1; bank = c.bank })
        else claim_owed rt user now
            (get_multiplier c.staker_account.stake_timestamp now)
            pool1
            s1
            c.bank)
      ≡ ok c'
    → handle_claim rt user now c ≡ ok c'
unfolding handle_claim
claim_composes rt user now c c' pool1 s1 running se rest = rw (se, running) rest

-- A claim goes through when the pool is not paused, the amounts fit their words, the staker is counted in
-- the pool's totals, and the user is not the reward vault, if nothing is due; and also if something is due,
-- provided that the runtime lets the program debit the reward vault and that this vault holds what is due
-- with its rent-exempt minimum.
pub claim_allowed :
    (rt : Runtime) (user : Pubkey) (now : ℤ) (c : StakerContext)
    → c.staking_pool.is_paused ≡ false
    → user ≢ c.staking_pool.reward_vault
    → Fits c.staking_pool c.staker_account
    → (entitlement now c.staking_pool c.staker_account ≡ 0)
      ⊎ (rt.may_debit c.staking_pool.reward_vault ≡ true)
    → needed rt (entitlement now c.staking_pool c.staker_account)
      ≤ c.bank.lamports c.staking_pool.reward_vault
    → c.bank.lamports user + entitlement now c.staking_pool c.staker_account < 2 ^ 64
    → (c' : StakerContext) × (handle_claim rt user now c ≡ ok c')
claim_allowed rt user now c running ne f debit rent room =
    let n = get_multiplier c.staker_account.stake_timestamp now in
    let le = get_multiplier-le c.staker_account.stake_timestamp now in
    let (pool1, s1, se) = settle-ok n c.staking_pool c.staker_account le f in
    elim (Bool-cases (n == 0)) [
      | inl early ↦ (
        record { staking_pool = pool1; staker_account = s1; bank = c.bank },
        claim_composes rt user now c _ pool1 s1 running se (rw early refl),
      )
      | inr late ↦
          let st = settle-Settled n c.staking_pool c.staker_account pool1 s1 se f.sound in
          let (acc, total, oe) = owed_total-ok n c.staking_pool pool1 c.staker_account s1 le f st in
          let e =
            entitlement-Settled now n acc total c.staking_pool pool1 c.staker_account s1 refl
              (ground arith) st oe f.sound in
          let v : pool1.reward_vault ≡ c.staking_pool.reward_vault =
            ground (arith, st.pool_frame) in
          let (c', ce) =
            claim_owed-ok rt user now n acc total pool1 s1 c.bank oe (rw v ne) (rw (v, ← e) debit)
              (rw (v, ← e) rent) (rw (← e) room) in
          (c', claim_composes rt user now c c' pool1 s1 running se (rw late ce))
    ]
