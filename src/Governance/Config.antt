-- ===== src/Governance/Config.antt =====
-- initialize_governance.rs, set_quorum.rs and set_auto_execute.rs
use dlmm_auto_sell_assets_in.Base.{ℕ, Bool, true, false, Option, none, some, ◌==◌}
use dlmm_auto_sell_assets_in.Errors.{
  Result, ok, unauthorized, account_in_use, require, constraint, ◌>>◌,
}
use dlmm_auto_sell_assets_in.State.{Pubkey, StakingPool, GovernanceConfig}

abbrev is_none : Option GovernanceConfig → Bool
is_none none = true
is_none (some c) = false

unfoldable pub initialize_governance :
    Pubkey → Pubkey → ℕ → StakingPool → Option GovernanceConfig → Result GovernanceConfig
initialize_governance owner pool_key bump pool account = do
  require (owner == pool.owner) unauthorized
  constraint (is_none account) account_in_use
  ok (record {
    pool = pool_key;
    next_proposal_id = 0;
    auto_execute = false;
    min_quorum_bps = 0;
    bump = bump;
  })

unfoldable pub set_quorum : Pubkey → ℕ → StakingPool → GovernanceConfig → Result GovernanceConfig
set_quorum owner min_quorum_bps pool config = do
  require (owner == pool.owner) unauthorized
  ok (record config { min_quorum_bps = min_quorum_bps })

unfoldable pub set_auto_execute :
    Pubkey → Bool → StakingPool → GovernanceConfig → Result GovernanceConfig
set_auto_execute owner enabled pool config = do
  require (owner == pool.owner) unauthorized
  ok (record config { auto_execute = enabled })
