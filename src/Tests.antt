-- ===== src/Tests.antt =====
-- Concrete accounts, a concrete runtime and the instances of the theorems on them.
mod Staking
mod Leaving
mod Genesis
mod Governance
mod Administration
mod Halt
mod Realloc
mod Success
mod Dormancy
mod Election
mod Program
use dlmm_auto_sell_assets_in.Base.{
  ℕ, ◌+◌, ◌-◌, ◌≡◌, ◌≢◌, ◌≤◌, ◌<◌, arith, refl, ltb, leb, ◌==◌, if◌then◌else◌, [], ◌∷◌, true, false,
  none,
}
use dlmm_auto_sell_assets_in.Base.Int.{pos}
use dlmm_auto_sell_assets_in.Errors.{Result, ok, err, or_panic, external, ◌>>=◌}
use dlmm_auto_sell_assets_in.Checked.{checked_sub, checked_add, try_from}
use dlmm_auto_sell_assets_in.State.{Pubkey, StakingPool, StakerAccount}
use dlmm_auto_sell_assets_in.Runtime.{TokenAccount, Bank, Transfer, Runtime, update, add_lamports}
use dlmm_auto_sell_assets_in.Runtime.Laws.{MovesLamports, MovesTokens, IsRuntime}
use dlmm_auto_sell_assets_in.Ledger.{Ledger}

-- Transfers of lamports by two changes of balances, and of tokens for the owner of the source.
unfoldable pub toy_system : Transfer
unfolding add_lamports checked_sub checked_add try_from
toy_system from to n bank = do
  left ← or_panic (checked_sub (bank.lamports from) n)
  add_lamports to n (record bank { lamports = update bank.lamports from left })

abbrev with_amount : TokenAccount → ℕ → TokenAccount
with_amount t n = record t { amount = n }

abbrev pub move_tokens : Pubkey → Pubkey → ℕ → (Pubkey → TokenAccount) → Pubkey → TokenAccount
move_tokens from to n t =
    let debited = update t from (with_amount (t from) ((t from).amount - n)) in
    update debited to (with_amount (debited to) ((debited to).amount + n))

unfoldable pub toy_token : Pubkey → Transfer
toy_token authority from to n bank =
    if (bank.tokens from).owner == authority
    then (if leb n (bank.tokens from).amount
        then ok (record bank { tokens = move_tokens from to n bank.tokens })
        else err (external 1))
    else err (external 4)

abbrev pub toy : Runtime
toy = record {
  token_transfer = toy_token;
  system_transfer = toy_system;
  minimum_balance = λ n. 890880;
  pool_key = 9;
  may_debit = λ key. true;
  vault_seeds_address = λ bump. none;
}

pub toy-IsRuntime : IsRuntime toy
unfolding toy_system toy_token
toy-IsRuntime = record {
  system = record {
    source = λ from to n b b' h ne. ground arith;
    target = λ from to n b b' h ne. ground arith;
    other = λ from to k n b b' h kf kt. ground arith;
    tokens_kept = λ from to k n b b' h. ground arith;
  };
  token = λ authority. record {
    source = λ from to n b b' h ne. ground arith;
    target = λ from to n b b' h ne. ground arith;
    other = λ from to k n b b' h kf kt. ground arith;
    owner_kept = λ from to k n b b' h. ground arith;
    lamports_kept = λ from to k n b b' h. ground arith;
  };
}

-- A pool with one staker (10), who has staked 1000 at time 0 and is still before the cliff.
abbrev pub pool : StakingPool
pool = record {
  owner = 1;
  crank = 2;
  brain_mint = 3;
  brain_vault = 4;
  reward_vault = 5;
  treasury = 6;
  total_staked = 1000;
  total_weighted_stake = 0;
  reward_per_share = 0;
  total_rewards_distributed = 0;
  protocol_fee_bps = 200;
  min_stake_amount = 100;
  pending_owner = 0;
  is_paused = false;
  bump = 255;
  brain_vault_bump = 254;
  reward_vault_bump = 253;
}

abbrev pub staker : StakerAccount
staker = record {
  owner = 10;
  staked_amount = 1000;
  stake_timestamp = pos 0;
  reward_debt = 0;
  pending_rewards = 0;
  last_claim_timestamp = pos 0;
  current_multiplier = 0;
  bump = 252;
}

-- Token account 20 belongs to user 10, and 4 is the BRAIN vault.
abbrev pub bank : Bank
bank = record {
  lamports = λ k. 20000000000;
  tokens = λ k. record {
    mint = 3;
    owner = if k == 20 then 10 else if k == 4 then 9 else 0;
    amount = if k == 20 then 500 else if k == 4 then 1000 else 0;
  };
}

abbrev pub start : Ledger
start = record { staking_pool = pool; stakers = (10, staker) ∷ []; bank = bank }
