-- ===== src/Halt.antt =====
-- programs/brain-staking/src/instructions/emergency_halt.rs: the pause of the pool and the walk over the
-- remaining accounts, whose data are raw bytes.
pub mod Layout
pub mod Account
pub mod Walk
use dlmm_auto_sell_assets_in.Base.{
  ℕ, ◌+◌, ◌*◌, ◌-◌, ◌^◌, List, [], ◌∷◌, Bool, true, not, Option, none, some, ltb, ◌==◌, ◌||◌,
  if◌then◌else◌, length, get_elem?, set,
}
use dlmm_auto_sell_assets_in.Base.Bytes.{take, drop, splice, le_bytes, from_le_bytes, eq_bytes}
use dlmm_auto_sell_assets_in.Base.Int.{ℤ, pos, negsuc}
use dlmm_auto_sell_assets_in.Errors.{Result, ok, unauthorized, require, or_panic, ◌>>=◌, ◌>>◌}
use dlmm_auto_sell_assets_in.Checked.{checked_add}
use dlmm_auto_sell_assets_in.State.{Pubkey, StakingPool}
use dlmm_auto_sell_assets_in.Runtime.{update}

abbrev pub pool_offset : ℕ
pool_offset = 8

abbrev pub status_offset : ℕ
status_offset = 176

abbrev pub completed_at_offset : ℕ
completed_at_offset = 185

abbrev pub dlmm_exit_data_len : ℕ
dlmm_exit_data_len = 194

-- What the handler reads besides the accounts: `crate::ID`, `DlmmExit::DISCRIMINATOR`, the key of the
-- pool and the clock.
pub record HaltContext : Type 0 where
  pub program_id : Pubkey
  pub discriminator : List ℕ
  pub pool_key : Pubkey
  pub now : ℤ

-- `AccountInfo`, as far as the handler uses it.
pub record AccountInfo : Type 0 where
  pub owner : Pubkey
  pub is_writable : Bool
  pub bytes : List ℕ

-- The 64 bits of an `i64`, in two's complement.
unfoldable pub i64_bits : ℤ → ℕ
i64_bits (pos n) = n
i64_bits (negsuc n) = 2 ^ 64 - 1 - n

-- `Pubkey::new(&data[POOL_OFFSET..POOL_OFFSET + 32])`
unfoldable pub exit_pool_key : List ℕ → Pubkey
exit_pool_key bytes = from_le_bytes (take 32 (drop pool_offset bytes))

-- The two writes into the data.
unfoldable pub terminated_bytes : ℤ → List ℕ → List ℕ
terminated_bytes now bytes =
    splice completed_at_offset (le_bytes 8 (i64_bits now)) (set bytes status_offset 2)

-- The body of the loop: the new data, or none where it goes on with the next account.
unfoldable pub halt_account : HaltContext → AccountInfo → Result (Option (List ℕ))
halt_account c account =
    if not (account.owner == c.program_id)
    then ok none
    else if not account.is_writable
    then ok none
    else if ltb (length account.bytes) dlmm_exit_data_len
    then ok none
    else if not (eq_bytes (take 8 account.bytes) c.discriminator)
    then ok none
    else if not (exit_pool_key account.bytes == c.pool_key)
    then ok none
    else (do
      status ← or_panic (get_elem? account.bytes status_offset)
      if not (status == 0) then ok none else ok (some (terminated_bytes c.now account.bytes)))

-- The accounts by key, and the counter of the terminated ones.
pub record Halting : Type 0 where
  pub accounts : Pubkey → AccountInfo
  pub terminated_count : ℕ

unfoldable pub store_halted : Pubkey → Option (List ℕ) → Halting → Result Halting
unfolding checked_add
store_halted key none h = ok h
store_halted key (some bytes) h = do
  count ← or_panic (checked_add 64 h.terminated_count 1)
  ok (record {
    accounts = update h.accounts key (record (h.accounts key) { bytes = bytes });
    terminated_count = count;
  })

-- The loop over `remaining_accounts`, of which one may be listed more than once.
unfoldable pub halt_accounts : HaltContext → List Pubkey → Halting → Result Halting
halt_accounts c [] h = ok h
halt_accounts c (key ∷ keys) h = do
  bytes ← halt_account c (h.accounts key)
  h' ← store_halted key bytes h
  halt_accounts c keys h'

-- `handle_emergency_halt`
unfoldable pub handle_emergency_halt :
    HaltContext
    → Pubkey
    → List Pubkey
    → StakingPool
    → (Pubkey → AccountInfo)
    → Result (StakingPool × (Pubkey → AccountInfo))
handle_emergency_halt c authority remaining_accounts pool accounts = do
  require (authority == pool.owner) unauthorized
  h ← halt_accounts c remaining_accounts (record { accounts = accounts; terminated_count = 0 })
  ok (record pool { is_paused = true }, h.accounts)
