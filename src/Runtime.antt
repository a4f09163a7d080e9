-- ===== src/Runtime.antt =====
-- What the program takes from the chain and from the libraries that it calls: the balances, and the
-- transfers of `anchor_spl::token` and `anchor_lang::system_program`. The transfers are parameters.
pub mod Laws
use dlmm_auto_sell_assets_in.Base.{ℕ, ◌+◌, ◌-◌, ltb, leb, ◌==◌, ◌||◌, if◌then◌else◌, Bool, Option}
use dlmm_auto_sell_assets_in.Errors.{
  Result, ok, external_lamport_spend, constraint, or_panic, ◌>>=◌, ◌>>◌,
}
use dlmm_auto_sell_assets_in.Checked.{checked_add, checked_sub}
use dlmm_auto_sell_assets_in.State.{Pubkey}

-- `anchor_spl::token::TokenAccount`, as far as the program reads it.
pub record TokenAccount : Type 0 where
  pub mint : Pubkey
  pub owner : Pubkey
  pub amount : ℕ

pub record Bank : Type 0 where
  pub lamports : Pubkey → ℕ
  pub tokens : Pubkey → TokenAccount

abbrev pub Transfer : Type 0
Transfer = Pubkey → Pubkey → ℕ → Bank → Result Bank

-- `token_transfer authority from to amount` and `system_transfer from to amount`;
-- `minimum_balance` is the rent-exempt minimum of an account of that many bytes, and `pool_key`
-- the address of the staking pool, which its seeds determine. `may_debit` says whose lamports the
-- program may take directly: the runtime lets it do so to the accounts that it owns, and a
-- `SystemAccount` is owned by the system program. `vault_seeds_address bump` is the address, if any,
-- that the seeds in emergency_rescue.rs (BRAIN_VAULT_SEED, the key of the pool, the bump) sign for.
pub record Runtime : Type 0 where
  pub token_transfer : Pubkey → Transfer
  pub system_transfer : Transfer
  pub minimum_balance : ℕ → ℕ
  pub pool_key : Pubkey
  pub may_debit : Pubkey → Bool
  pub vault_seeds_address : ℕ → Option Pubkey

abbrev pub update {ℓ} : {A : Type ℓ} → (Pubkey → A) → Pubkey → A → Pubkey → A
update f k v j = if j == k then v else f j

-- `**info.try_borrow_mut_lamports()? -= amount`, on `u64` with overflow checks. The runtime fails the
-- instruction if it has taken lamports from an account that the program does not own. It looks at the
-- balances when the instruction ends, and no handler gives back what it has taken: the user who is paid is
-- not the vault.
unfoldable pub sub_lamports : Runtime → Pubkey → ℕ → Bank → Result Bank
unfolding checked_sub
sub_lamports rt key amount bank = do
  constraint (amount == 0 || rt.may_debit key) external_lamport_spend
  left ← or_panic (checked_sub (bank.lamports key) amount)
  ok (record bank { lamports = update bank.lamports key left })

-- `**info.try_borrow_mut_lamports()? += amount`.
unfoldable pub add_lamports : Pubkey → ℕ → Bank → Result Bank
unfolding checked_add
add_lamports key amount bank = do
  grown ← or_panic (checked_add 64 (bank.lamports key) amount)
  ok (record bank { lamports = update bank.lamports key grown })
