-- ===== src/Exits.antt =====
-- The DLMM exit trackers: initiate_exit.rs, record_claim.rs, complete_exit.rs, terminate_exit.rs and
-- close_dlmm_exit.rs. A tracker is the account at the address of its asset and pool, or none.
pub mod Runs
pub mod Lifecycle
use dlmm_auto_sell_assets_in.Base.{ℕ, Option, none, some, Bool, true, false, not, ◌||◌, ltb, ◌==◌}
use dlmm_auto_sell_assets_in.Base.Int.{ℤ, pos}
use dlmm_auto_sell_assets_in.Errors.{
  Result, ok, unauthorized, pool_paused, zero_amount, exit_not_active, invalid_state,
  exit_already_active, account_in_use, require, constraint, ◌>>=◌, ◌>>◌,
}
use dlmm_auto_sell_assets_in.Checked.{checked_add, or_overflow}
use dlmm_auto_sell_assets_in.State.{Pubkey, StakingPool, DlmmExit}

-- What an instruction is given: the signer, the key of the pool and the clock.
pub record Call : Type 0 where
  pub authority : Pubkey
  pub pool_key : Pubkey
  pub now : ℤ
  pub bump : ℕ

-- The tracker that both kinds of initiation fill in.
abbrev pub new_exit : Call → Pubkey → Pubkey → Pubkey → Pubkey → ℕ → DlmmExit
new_exit call owner asset_mint dlmm_pool position proposal_id = record {
  pool = call.pool_key;
  owner = owner;
  asset_mint = asset_mint;
  dlmm_pool = dlmm_pool;
  position = position;
  total_sol_claimed = 0;
  status = 0;
  created_at = call.now;
  completed_at = pos 0;
  proposal_id = proposal_id;
  last_claimed_amount = 0;
  bump = call.bump;
}

abbrev pub is_none : Option DlmmExit → Bool
is_none none = true
is_none (some e) = false

abbrev pub check_owner_or_crank : Pubkey → StakingPool → Result (Unit {0})
check_owner_or_crank signer pool =
    require (signer == pool.owner || signer == pool.crank) unauthorized

unfoldable pub initiate_exit :
    Call → Pubkey → Pubkey → Pubkey → StakingPool → Option DlmmExit → Result DlmmExit
initiate_exit call asset_mint dlmm_pool position pool account = do
  require (call.authority == pool.owner) unauthorized
  constraint (is_none account) account_in_use
  require (not pool.is_paused) pool_paused
  ok (new_exit call call.authority asset_mint dlmm_pool position 0)

unfoldable pub record_claim : Call → ℕ → StakingPool → DlmmExit → Result DlmmExit
unfolding checked_add
record_claim call amount pool exit = do
  check_owner_or_crank call.authority pool
  require (exit.pool == call.pool_key) unauthorized
  require (ltb 0 amount) zero_amount
  require (exit.status == 0) exit_not_active
  require (exit.last_claimed_amount == 0 || not (exit.last_claimed_amount == amount)) invalid_state
  total ← or_overflow (checked_add 64 exit.total_sol_claimed amount)
  ok (record exit { total_sol_claimed = total; last_claimed_amount = amount })

unfoldable pub complete_exit : Call → StakingPool → DlmmExit → Result DlmmExit
complete_exit call pool exit = do
  check_owner_or_crank call.authority pool
  require (exit.pool == call.pool_key) unauthorized
  require (exit.status == 0) exit_not_active
  ok (record exit { status = 1; completed_at = call.now })

unfoldable pub terminate_exit : Call → StakingPool → DlmmExit → Result DlmmExit
terminate_exit call pool exit = do
  require (call.authority == pool.owner) unauthorized
  require (exit.status == 0) exit_not_active
  ok (record exit { status = 2; completed_at = call.now })

-- `close_dlmm_exit`: the account is gone; its rent is not modelled.
unfoldable pub close_dlmm_exit : Call → StakingPool → DlmmExit → Result (Option DlmmExit)
close_dlmm_exit call pool exit = do
  require (call.authority == pool.owner) unauthorized
  require (not (exit.status == 0)) exit_already_active
  ok none
