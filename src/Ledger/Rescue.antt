-- ===== src/Ledger/Rescue.antt =====
-- The emergency rescue on the ledgers that can come about.
use dlmm_auto_sell_assets_in.Base.{ℕ, ◌≡◌, ◌≢◌, ◌==◌}
use dlmm_auto_sell_assets_in.Base.Assoc.{lookup}
use dlmm_auto_sell_assets_in.Errors.{
  ok, unauthorized, wrong_address, >>=-eq-ok, require-eq-ok, constraint-eq-ok,
}
use dlmm_auto_sell_assets_in.State.{Pubkey, StakingPool, StakerAccount}
use dlmm_auto_sell_assets_in.Runtime.{Bank, Runtime}
use dlmm_auto_sell_assets_in.Runtime.Laws.{IsRuntime}
use dlmm_auto_sell_assets_in.Rewards.{StakerContext}
use dlmm_auto_sell_assets_in.Staking.Initialize.{InitializeAccounts, handle_initialize}
use dlmm_auto_sell_assets_in.Staking.Rescue.{handle_emergency_rescue}
use dlmm_auto_sell_assets_in.Staking.Rescue.Refusal.{rescue_fails}
use dlmm_auto_sell_assets_in.Ledger.{Ledger, existing, check_ata, context_of, emergency_rescue}
use dlmm_auto_sell_assets_in.Ledger.Steps.{Reach}
use dlmm_auto_sell_assets_in.Ledger.Custody.{IsCustody}
use dlmm_auto_sell_assets_in.Ledger.Genesis.{genesis, genesis-IsCustody}

-- The handler ran.
rescue-handled :
    (rt : Runtime) (user ata brain_vault reward_vault : Pubkey) (l l' : Ledger)
    → emergency_rescue rt user ata brain_vault reward_vault l ≡ ok l'
    → (s : StakerAccount) × (c : StakerContext) × (handle_emergency_rescue rt user ata
          (context_of l s)
        ≡ ok c)
unfolding emergency_rescue
rescue-handled rt user ata brain_vault reward_vault l l' h =
    let (s, _, h1) = >>=-eq-ok (existing (lookup user l.stakers)) _ h in
    let (_, h2) = require-eq-ok (s.owner == user) unauthorized _ h1 in
    let (_, _, h3) = >>=-eq-ok (check_ata user ata l) _ h2 in
    let (_, h4) = constraint-eq-ok (brain_vault == l.staking_pool.brain_vault) wrong_address _ h3 in
    let (_, h5) =
      constraint-eq-ok (reward_vault == l.staking_pool.reward_vault) wrong_address _ h4 in
    let (c, e, _) = >>=-eq-ok (handle_emergency_rescue rt user ata (context_of l s)) _ h5 in
    (s, c, e)

-- Where token transfers need the authority of the source account, and move what they are asked to and
-- nothing else: from the initialization of a pool whose BRAIN vault belongs to it, and whatever
-- instructions run then, no emergency rescue by anyone ever succeeds.
pub rescue_never :
    (rt : Runtime)
    → IsRuntime rt
    → ((authority from to : Pubkey) (n : ℕ) (b b' : Bank)
        → rt.token_transfer authority from to n b ≡ ok b'
        → (b.tokens from).owner ≡ authority)
    → (a : InitializeAccounts) (crank : Pubkey) (fee_bps min_stake : ℕ) (pool : StakingPool)
      (bank : Bank) {l : Ledger} (user ata brain_vault reward_vault : Pubkey) (l' : Ledger)
    → handle_initialize a crank fee_bps min_stake ≡ ok pool
    → (bank.tokens a.brain_vault).owner ≡ rt.pool_key
    → Reach rt (genesis pool bank) l
    → rt.pool_key ≢ l.staking_pool.brain_vault
    → emergency_rescue rt user ata brain_vault reward_vault l ≢ ok l'
rescue_never rt laws checked a crank fee_bps min_stake pool bank {l} user ata brain_vault
      reward_vault l' h owned r apart k =
    let custody : IsCustody rt l =
      genesis-IsCustody rt laws a crank fee_bps min_stake pool bank h owned r in
    let (s, c, e) = rescue-handled rt user ata brain_vault reward_vault l l' k in
    rescue_fails rt user ata (context_of l s) c checked custody.owned apart e
