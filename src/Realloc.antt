-- ===== src/Realloc.antt =====
-- The instructions that grow an account made by an earlier version: realloc_dlmm_exit.rs,
-- realloc_governance_config.rs, realloc_proposal.rs and realloc_staking_pool.rs, in
-- programs/brain-staking/src/instructions. Each takes the account as the framework has read it.
pub mod Growth
use dlmm_auto_sell_assets_in.Base.{ℕ, ◌+◌, ◌-◌, Bool, true, false, ltb, leb, ◌==◌, if◌then◌else◌}
use dlmm_auto_sell_assets_in.Errors.{Result, ok, unauthorized, require, ◌>>=◌, ◌>>◌}
use dlmm_auto_sell_assets_in.State.{
  Pubkey, default_pubkey, StakingPool, DlmmExit, GovernanceConfig, Proposal,
}
use dlmm_auto_sell_assets_in.Runtime.{Bank, Runtime}

-- The account to grow: its key, the length of its data, `T::INIT_SPACE` and `AccountInfo::realloc`, which
-- takes the present length and the new one.
pub record Resizing : Type 0 where
  pub key : Pubkey
  pub data_len : ℕ
  pub init_space : ℕ
  pub realloc : ℕ → ℕ → Result ℕ

abbrev pub new_size : Resizing → ℕ
new_size r = 8 + r.init_space

-- The rent that is missing comes from the owner, and the data are made longer; `-` on ℕ is
-- `saturating_sub`.
unfoldable pub grow_account : Runtime → Pubkey → Resizing → Bank → Result (ℕ × Bank)
grow_account rt owner r bank = do
  let diff = rt.minimum_balance (new_size r) - bank.lamports r.key
  funded ← (if ltb 0 diff then rt.system_transfer owner r.key diff bank else ok bank)
  len ← r.realloc r.data_len (new_size r)
  ok (len, funded)

-- An account after an instruction, with the length of its data and the balances.
pub record Resized (T : Type 0) : Type 0 where
  pub account : T
  pub len : ℕ
  pub bank : Bank

-- The course of the four handlers, which differ in the fields that they set at the end.
unfoldable pub realloc_account :
    {T : Type 0}
    → (T → T)
    → Runtime
    → Pubkey
    → Resizing
    → StakingPool
    → T
    → Bank
    → Result (Resized T)
realloc_account set_fields rt owner r pool account bank = do
  require (owner == pool.owner) unauthorized
  if leb (new_size r) r.data_len
      then ok (record { account = account; len = r.data_len; bank = bank })
      else (do
        (len, bank') ← grow_account rt owner r bank
        ok (record { account = set_fields account; len = len; bank = bank' }))

unfoldable pub realloc_dlmm_exit :
    Runtime → Pubkey → Resizing → StakingPool → DlmmExit → Bank → Result (Resized DlmmExit)
unfolding realloc_account
realloc_dlmm_exit =
    realloc_account
      (λ e. if e.last_claimed_amount == 0 then record e { last_claimed_amount = 0 } else e)

unfoldable pub realloc_governance_config :
    Runtime
    → Pubkey
    → Resizing
    → StakingPool
    → GovernanceConfig
    → Bank
    → Result (Resized GovernanceConfig)
unfolding realloc_account
realloc_governance_config =
    realloc_account (λ c. record c { auto_execute = false; min_quorum_bps = 0 })

unfoldable pub realloc_proposal :
    Runtime → Pubkey → Resizing → StakingPool → Proposal → Bank → Result (Resized Proposal)
unfolding realloc_account
realloc_proposal = realloc_account (λ p. record p { winning_option_index = 255; executed = false })

-- Here the pool is the account that grows.
unfoldable pub realloc_staking_pool :
    Runtime → Pubkey → Resizing → StakingPool → Bank → Result (Resized StakingPool)
unfolding realloc_account
realloc_staking_pool rt owner r pool bank =
    realloc_account (λ p. record p { pending_owner = default_pubkey }) rt owner r pool pool bank
