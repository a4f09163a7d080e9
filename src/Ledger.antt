-- ===== src/Ledger.antt =====
-- The staking instructions over the whole set of accounts: lib.rs with the account constraints of
-- stake.rs, deposit_rewards.rs, claim.rs and unstake.rs. A staker account is the program-derived
-- address of its user, so the accounts are kept by user.
pub mod Consistency
pub mod Inversion
pub mod Steps
pub mod Liabilities
pub mod Solvency
pub mod Conservation
pub mod Custody
pub mod Configuration
pub mod Genesis
pub mod Rescue
pub mod Dormancy
use dlmm_auto_sell_assets_in.Base.{ℕ, Bool, true, false, ◌||◌, Option, none, some, List, ◌==◌}
use dlmm_auto_sell_assets_in.Base.Int.{ℤ}
use dlmm_auto_sell_assets_in.Base.Assoc.{Assoc, lookup, is_vacant, insert, erase}
use dlmm_auto_sell_assets_in.Errors.{
  Error, Result, ok, err, unauthorized, invalid_mint, account_in_use, account_not_initialized,
  wrong_address, require, constraint, ◌>>=◌, ◌>>◌,
}
use dlmm_auto_sell_assets_in.State.{Pubkey, StakingPool, StakerAccount}
use dlmm_auto_sell_assets_in.Runtime.{Bank, Runtime}
use dlmm_auto_sell_assets_in.Rewards.{StakerContext}
use dlmm_auto_sell_assets_in.Staking.Stake.{handle_stake}
use dlmm_auto_sell_assets_in.Staking.Deposit.{handle_deposit_rewards}
use dlmm_auto_sell_assets_in.Staking.Claim.{handle_claim}
use dlmm_auto_sell_assets_in.Staking.Unstake.{handle_unstake}
use dlmm_auto_sell_assets_in.Staking.Rescue.{handle_emergency_rescue}

pub record Ledger : Type 0 where
  pub staking_pool : StakingPool
  pub stakers : Assoc StakerAccount
  pub bank : Bank

-- An account that has to exist.
abbrev pub existing {ℓ} : {A : Type ℓ} → Option A → Result A
existing none = err account_not_initialized
existing (some a) = ok a

-- The constraints on a user's BRAIN token account.
abbrev pub check_ata : Pubkey → Pubkey → Ledger → Result (Unit {0})
check_ata user ata l = do
  require ((l.bank.tokens ata).mint == l.staking_pool.brain_mint) invalid_mint
  require ((l.bank.tokens ata).owner == user) unauthorized

abbrev pub put_staker : Pubkey → Ledger → StakerContext → Ledger
put_staker user l c = record {
  staking_pool = c.staking_pool;
  stakers = insert user c.staker_account l.stakers;
  bank = c.bank;
}

abbrev pub context_of : Ledger → StakerAccount → StakerContext
context_of l s = record { staking_pool = l.staking_pool; staker_account = s; bank = l.bank }

-- `stake`: the staker account is created, so it must not exist.
unfoldable pub stake : Runtime → Pubkey → Pubkey → Pubkey → ℤ → ℕ → ℕ → Ledger → Result Ledger
stake rt user user_brain_ata brain_vault now bump amount l = do
  constraint (is_vacant user l.stakers) account_in_use
  check_ata user user_brain_ata l
  constraint (brain_vault == l.staking_pool.brain_vault) wrong_address
  c ← handle_stake rt user user_brain_ata now bump amount l.staking_pool l.bank
  ok (put_staker user l c)

-- `deposit_rewards`: by the owner or the crank.
unfoldable pub deposit_rewards : Runtime → Pubkey → Pubkey → Pubkey → ℕ → Ledger → Result Ledger
deposit_rewards rt authority reward_vault treasury amount l = do
  require (authority == l.staking_pool.owner || authority == l.staking_pool.crank) unauthorized
  constraint (reward_vault == l.staking_pool.reward_vault) wrong_address
  constraint (treasury == l.staking_pool.treasury) wrong_address
  (pool, bank) ← handle_deposit_rewards rt authority amount l.staking_pool l.bank
  ok (record l { staking_pool = pool; bank = bank })

-- `claim`
unfoldable pub claim : Runtime → Pubkey → Pubkey → ℤ → Ledger → Result Ledger
claim rt user reward_vault now l = do
  staker ← existing (lookup user l.stakers)
  require (staker.owner == user) unauthorized
  constraint (reward_vault == l.staking_pool.reward_vault) wrong_address
  c ← handle_claim rt user now (context_of l staker)
  ok (put_staker user l c)

-- `unstake`: the staker account is closed at the end. The rent that `close = user` returns is not
-- part of the balances here.
unfoldable pub unstake : Runtime → Pubkey → Pubkey → Pubkey → Pubkey → ℤ → Ledger → Result Ledger
unstake rt user brain_vault user_brain_ata reward_vault now l = do
  staker ← existing (lookup user l.stakers)
  require (staker.owner == user) unauthorized
  constraint (brain_vault == l.staking_pool.brain_vault) wrong_address
  check_ata user user_brain_ata l
  constraint (reward_vault == l.staking_pool.reward_vault) wrong_address
  (pool, bank) ← handle_unstake rt user user_brain_ata now (context_of l staker)
  ok (record { staking_pool = pool; stakers = erase user l.stakers; bank = bank })

-- `emergency_rescue`: the pool is not marked as mutable, so that what the handler does to it in memory is
-- not written back.
unfoldable pub emergency_rescue :
    Runtime → Pubkey → Pubkey → Pubkey → Pubkey → Ledger → Result Ledger
emergency_rescue rt user user_brain_ata brain_vault reward_vault l = do
  staker ← existing (lookup user l.stakers)
  require (staker.owner == user) unauthorized
  check_ata user user_brain_ata l
  constraint (brain_vault == l.staking_pool.brain_vault) wrong_address
  constraint (reward_vault == l.staking_pool.reward_vault) wrong_address
  c ← handle_emergency_rescue rt user user_brain_ata (context_of l staker)
  ok (record l { stakers = insert user c.staker_account l.stakers; bank = c.bank })
