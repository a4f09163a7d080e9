-- ===== src/Ledger/Inversion.antt =====
-- What a successful instruction has passed: its account constraints, and then its handler.
use dlmm_auto_sell_assets_in.Base.{
  ℕ, ◌≡◌, ◌⊎◌, arith, Option, some, none, true, ◌||◌, ◌==◌, ◌≤◌, ◌<◌, ◌+◌, false,
}
use dlmm_auto_sell_assets_in.Base.Int.{ℤ}
use dlmm_auto_sell_assets_in.Base.Assoc.{Assoc, lookup, is_vacant, erase}
use dlmm_auto_sell_assets_in.Errors.{
  ok, unauthorized, account_in_use, wrong_address, >>=-eq-ok, require-eq-ok, constraint-eq-ok,
  ok-injective,
}
use dlmm_auto_sell_assets_in.Checked.{checked_add}
use dlmm_auto_sell_assets_in.Constants.{max_stake_amount}
use dlmm_auto_sell_assets_in.State.{Pubkey, StakingPool, StakerAccount}
use dlmm_auto_sell_assets_in.Runtime.{Bank, Runtime}
use dlmm_auto_sell_assets_in.Rewards.{StakerContext}
use dlmm_auto_sell_assets_in.Staking.Stake.{new_staker, handle_stake}
use dlmm_auto_sell_assets_in.Staking.Claim.{handle_claim}
use dlmm_auto_sell_assets_in.Staking.Unstake.{handle_unstake}
use dlmm_auto_sell_assets_in.Staking.Deposit.{handle_deposit_rewards}
use dlmm_auto_sell_assets_in.Ledger.{
  Ledger, existing, check_ata, put_staker, context_of, stake, deposit_rewards, claim, unstake,
}

pub existing-eq-ok : {A : Type 0} (o : Option A) {a : A} → existing o ≡ ok a → o ≡ some a
existing-eq-ok none h = cc
existing-eq-ok (some a) h = cc

vacant : {A : Type 0} (k : ℕ) (m : Assoc A) → is_vacant k m ≡ true → lookup k m ≡ none
vacant k m h = ground arith

pub claim-eq :
    (rt : Runtime) (user vault : Pubkey) (now : ℤ) (l l' : Ledger)
    → claim rt user vault now l ≡ ok l'
    → (s : StakerAccount) × (c : StakerContext) × (lookup user l.stakers ≡ some s)
      × (s.owner ≡ user)
      × (handle_claim rt user now (context_of l s) ≡ ok c)
      × (put_staker user l c ≡ l')
unfolding claim
claim-eq rt user vault now l l' h =
    let (s, found, h1) = >>=-eq-ok (existing (lookup user l.stakers)) _ h in
    let (owned, h2) = require-eq-ok (s.owner == user) unauthorized _ h1 in
    let (addressed, h3) =
      constraint-eq-ok (vault == l.staking_pool.reward_vault) wrong_address _ h2 in
    let (c, handled, h4) = >>=-eq-ok (handle_claim rt user now (context_of l s)) _ h3 in
    (s, c, existing-eq-ok (lookup user l.stakers) found, ground arith, handled, ok-injective h4)

pub unstake-eq :
    (rt : Runtime) (user brain_vault ata vault : Pubkey) (now : ℤ) (l l' : Ledger)
    → unstake rt user brain_vault ata vault now l ≡ ok l'
    → (s : StakerAccount) × (r : StakingPool × Bank) × (lookup user l.stakers ≡ some s)
      × (s.owner ≡ user)
      × ((l.bank.tokens ata).owner ≡ user)
      × (handle_unstake rt user ata now (context_of l s) ≡ ok r)
      × (record { staking_pool = r.0; stakers = erase user l.stakers; bank = r.1 } ≡ l')
unfolding unstake
unstake-eq rt user brain_vault ata vault now l l' h =
    let (s, found, h1) = >>=-eq-ok (existing (lookup user l.stakers)) _ h in
    let (owned, h2) = require-eq-ok (s.owner == user) unauthorized _ h1 in
    let (addressed, h3) =
      constraint-eq-ok (brain_vault == l.staking_pool.brain_vault) wrong_address _ h2 in
    let (u, checked, h4) = >>=-eq-ok (check_ata user ata l) _ h3 in
    let (vaulted, h5) =
      constraint-eq-ok (vault == l.staking_pool.reward_vault) wrong_address _ h4 in
    let (r, handled, h6) = >>=-eq-ok (handle_unstake rt user ata now (context_of l s)) _ h5 in
    (
      s,
      r,
      existing-eq-ok (lookup user l.stakers) found,
      ground arith,
      ground arith,
      handled,
      ok-injective h6,
    )

pub handle_stake-eq :
    (rt : Runtime) (user ata : Pubkey) (now : ℤ) (bump amount : ℕ) (pool : StakingPool)
    (bank : Bank) (c : StakerContext)
    → handle_stake rt user ata now bump amount pool bank ≡ ok c
    → (pool.is_paused ≡ false)
      × (0 < amount)
      × (pool.min_stake_amount ≤ amount)
      × (amount ≤ max_stake_amount)
      × (rt.token_transfer user ata pool.brain_vault amount bank ≡ ok c.bank)
      × (c ≡ record {
        staking_pool = record pool { total_staked = pool.total_staked + amount };
        staker_account = new_staker user amount now bump;
        bank = c.bank;
      })
unfolding handle_stake checked_add
handle_stake-eq rt user ata now bump amount pool bank c h = ground arith

pub stake-eq :
    (rt : Runtime) (user ata vault : Pubkey) (now : ℤ) (bump amount : ℕ) (l l' : Ledger)
    → stake rt user ata vault now bump amount l ≡ ok l'
    → (c : StakerContext) × (lookup user l.stakers ≡ none)
      × ((l.bank.tokens ata).owner ≡ user)
      × (handle_stake rt user ata now bump amount l.staking_pool l.bank ≡ ok c)
      × (put_staker user l c ≡ l')
unfolding stake
stake-eq rt user ata vault now bump amount l l' h =
    let (free, h1) = constraint-eq-ok (is_vacant user l.stakers) account_in_use _ h in
    let (u, checked, h2) = >>=-eq-ok (check_ata user ata l) _ h1 in
    let (addressed, h3) =
      constraint-eq-ok (vault == l.staking_pool.brain_vault) wrong_address _ h2 in
    let (c, handled, h4) =
      >>=-eq-ok (handle_stake rt user ata now bump amount l.staking_pool l.bank) _ h3 in
    (c, vacant user l.stakers free, ground arith, handled, ok-injective h4)

pub deposit_rewards-eq :
    (rt : Runtime) (authority vault treasury : Pubkey) (amount : ℕ) (l l' : Ledger)
    → deposit_rewards rt authority vault treasury amount l ≡ ok l'
    → (r : StakingPool × Bank) × ((authority ≡ l.staking_pool.owner)
        ⊎ (authority ≡ l.staking_pool.crank))
      × (handle_deposit_rewards rt authority amount l.staking_pool l.bank ≡ ok r)
      × (record l { staking_pool = r.0; bank = r.1 } ≡ l')
unfolding deposit_rewards
deposit_rewards-eq rt authority vault treasury amount l l' h =
    let (allowed, h1) =
      require-eq-ok (authority == l.staking_pool.owner || authority == l.staking_pool.crank)
        unauthorized _ h in
    let (addressed, h2) =
      constraint-eq-ok (vault == l.staking_pool.reward_vault) wrong_address _ h1 in
    let (paid, h3) = constraint-eq-ok (treasury == l.staking_pool.treasury) wrong_address _ h2 in
    let (r, handled, h4) =
      >>=-eq-ok (handle_deposit_rewards rt authority amount l.staking_pool l.bank) _ h3 in
    (r, ground arith, handled, ok-injective h4)
