-- ===== src/Program.antt =====
-- All accounts of the program together, and how an instruction finds and writes back those that it names.
pub mod Instruction
pub mod Dispatch
pub mod Refinement
pub mod Runs
pub mod Coverage
pub mod Elections
pub mod Ballots
use Prim.Native.String.{String}
use dlmm_auto_sell_assets_in.Base.{ℕ, Option, none, some, List, [], ◌==◌, if◌then◌else◌}
use dlmm_auto_sell_assets_in.Base.Int.{ℤ}
use dlmm_auto_sell_assets_in.Base.Assoc.{Assoc, lookup, insert}
use dlmm_auto_sell_assets_in.Errors.{Result, ok, wrong_address, constraint, ◌>>=◌, ◌>>◌}
use dlmm_auto_sell_assets_in.State.{Pubkey, StakingPool, DlmmExit, GovernanceConfig}
use dlmm_auto_sell_assets_in.Runtime.{Runtime, update}
use dlmm_auto_sell_assets_in.Exits.{Call}
use dlmm_auto_sell_assets_in.Halt.{AccountInfo}
use dlmm_auto_sell_assets_in.Ledger.{Ledger, existing}
use dlmm_auto_sell_assets_in.Governance.Election.{Election}

-- What the program takes from its libraries: the chain, the address of a tracker, how the framework reads
-- and writes one, and the parsing of keys.
pub record Framework : Type 0 where
  pub runtime : Runtime
  pub program_id : Pubkey
  pub discriminator : List ℕ
  pub tracker_key : Pubkey → Pubkey → Pubkey
  pub decode : List ℕ → Option DlmmExit
  pub encode : DlmmExit → List ℕ
  pub from_str : String → Option Pubkey

-- The signer, the clock and the bump that the framework found.
pub record Environment : Type 0 where
  pub signer : Pubkey
  pub now : ℤ
  pub bump : ℕ

-- The accounts: pool, stakers and balances; the settings; the proposals by number, with their vote
-- records; and the raw accounts in which the trackers are.
pub record Program : Type 0 where
  pub ledger : Ledger
  pub governance_config : Option GovernanceConfig
  pub elections : Assoc Election
  pub accounts : Pubkey → AccountInfo

abbrev pub call_of : Framework → Environment → Call
call_of fw env = record {
  authority = env.signer;
  pool_key = fw.runtime.pool_key;
  now = env.now;
  bump = env.bump;
}

abbrev pub pool_of : Program → StakingPool
pool_of s = s.ledger.staking_pool

abbrev pub on_ledger : (Ledger → Result Ledger) → Program → Result Program
on_ledger f s = do l ← f s.ledger; ok (record s { ledger = l })

abbrev pub put_pool : StakingPool → Program → Program
put_pool pool s = record s { ledger = record (s.ledger) { staking_pool = pool } }

abbrev pub on_pool : (StakingPool → Result StakingPool) → Program → Result Program
on_pool f s = do pool ← f (pool_of s); ok (put_pool pool s)

abbrev pub on_config : (GovernanceConfig → Result GovernanceConfig) → Program → Result Program
on_config f s = do
  config ← existing s.governance_config
  config' ← f config
  ok (record s { governance_config = some config' })

abbrev pub on_election : ℕ → (Election → Result Election) → Program → Result Program
on_election id f s = do
  e ← existing (lookup id s.elections)
  e' ← f e
  ok (record s { elections = insert id e' s.elections })

-- A tracker is an account of the program that decodes, at the address of its asset and pool; the errors
-- of the framework for the first two are not told apart.
abbrev pub load_tracker : Framework → Pubkey → Program → Result DlmmExit
load_tracker fw key s = do
  e ←
      existing
        (if (s.accounts key).owner == fw.program_id then fw.decode (s.accounts key).bytes else none)
  constraint (key == fw.tracker_key e.asset_mint e.dlmm_pool) wrong_address
  ok e

abbrev pub put_tracker : Framework → Pubkey → Option DlmmExit → Program → Program
put_tracker fw key none s = record s {
  accounts = update s.accounts key (record (s.accounts key) { owner = 0; bytes = [] });
}
put_tracker fw key (some e) s = record s {
  accounts =
      update s.accounts key
        (record (s.accounts key) { owner = fw.program_id; bytes = fw.encode e });
}

abbrev pub on_tracker :
    Framework → Pubkey → (DlmmExit → Result (Option DlmmExit)) → Program → Result Program
on_tracker fw key f s = do e ← load_tracker fw key s; e' ← f e; ok (put_tracker fw key e' s)
