-- ===== src/Admin.antt =====
-- The instructions that administer the pool: resume.rs, update_crank.rs, update_treasury.rs,
-- update_pool_config.rs, transfer_ownership.rs, accept_ownership.rs and renounce_ownership.rs. Each
-- takes the signer, and its account constraint comes first.
pub mod Changes
pub mod Authority
pub mod Ownership
use Prim.Native.String.{String}
use dlmm_auto_sell_assets_in.Base.{ℕ, Option, none, some, not, true, false, ltb, leb, ◌==◌}
use dlmm_auto_sell_assets_in.Errors.{
  Result, ok, unauthorized, invalid_pending_owner, no_pending_owner, invalid_min_stake, invalid_fee,
  math_overflow, require, ok_or, ◌>>=◌, ◌>>◌,
}
use dlmm_auto_sell_assets_in.Constants.{max_protocol_fee_bps}
use dlmm_auto_sell_assets_in.State.{Pubkey, default_pubkey, StakingPool}

-- `has_one = owner` and `authority.key() == staking_pool.owner`.
abbrev pub check_owner : Pubkey → StakingPool → Result (Unit {0})
check_owner signer pool = require (signer == pool.owner) unauthorized

unfoldable pub resume : Pubkey → StakingPool → Result StakingPool
resume signer pool = do check_owner signer pool; ok (record pool { is_paused = false })

unfoldable pub update_crank : Pubkey → Pubkey → StakingPool → Result StakingPool
update_crank signer new_crank pool = do
  check_owner signer pool
  require (not (new_crank == default_pubkey)) invalid_pending_owner
  ok (record pool { crank = new_crank })

unfoldable pub update_treasury : Pubkey → Pubkey → StakingPool → Result StakingPool
update_treasury signer new_treasury pool = do
  check_owner signer pool
  require (not (new_treasury == default_pubkey)) invalid_pending_owner
  ok (record pool { treasury = new_treasury })

-- `if let Some(min_stake) = new_min_stake { … }`
unfoldable pub set_min_stake : Option ℕ → StakingPool → Result StakingPool
set_min_stake none pool = ok pool
set_min_stake (some min_stake) pool = do
  require (ltb 0 min_stake) invalid_min_stake
  ok (record pool { min_stake_amount = min_stake })

-- `if let Some(fee_bps) = new_protocol_fee_bps { … }`
unfoldable pub set_fee : Option ℕ → StakingPool → Result StakingPool
set_fee none pool = ok pool
set_fee (some fee_bps) pool = do
  require (leb fee_bps max_protocol_fee_bps) invalid_fee
  ok (record pool { protocol_fee_bps = fee_bps })

unfoldable pub update_pool_config : Pubkey → Option ℕ → Option ℕ → StakingPool → Result StakingPool
unfolding set_min_stake set_fee
update_pool_config signer new_min_stake new_protocol_fee_bps pool = do
  check_owner signer pool
  pool' ← set_min_stake new_min_stake pool
  set_fee new_protocol_fee_bps pool'

unfoldable pub transfer_ownership : Pubkey → Pubkey → StakingPool → Result StakingPool
transfer_ownership signer new_owner pool = do
  check_owner signer pool
  require (not (new_owner == default_pubkey)) invalid_pending_owner
  ok (record pool { pending_owner = new_owner })

unfoldable pub accept_ownership : Pubkey → StakingPool → Result StakingPool
accept_ownership new_owner pool = do
  require (not (pool.pending_owner == default_pubkey)) no_pending_owner
  require (new_owner == pool.pending_owner) invalid_pending_owner
  ok (record pool { owner = pool.pending_owner; pending_owner = default_pubkey })

-- The text that `renounce_ownership` parses.
abbrev pub burn_address : String
burn_address = "1DIg2LbN1UqD4K4NNEk2KqAY6dCwWq6K8"

-- `from_str` is `Pubkey::from_str` of the Solana SDK.
unfoldable pub renounce_ownership :
    (String → Option Pubkey) → Pubkey → StakingPool → Result StakingPool
renounce_ownership from_str signer pool = do
  check_owner signer pool
  burned ← ok_or (from_str burn_address) math_overflow
  ok (record pool { owner = burned; pending_owner = default_pubkey })
