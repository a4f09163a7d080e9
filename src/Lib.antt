-- ===== src/Lib.antt =====
-- BRAIN staking: a Solana program (programs/brain-staking/src) in which users stake a token, the owner
-- or a crank deposits SOL as rewards, and stakers claim them by time-weighted shares; the program also
-- tracks the sale of assets in DLMM positions and lets token holders vote on such sales.
--
-- How the parts interact. Every instruction gets accounts from the framework, checks constraints and
-- runs a handler from programs/brain-staking/src/instructions. `stake` moves tokens to the BRAIN vault
-- and opens a staker account; `deposit_rewards` raises the pool's accumulator `reward_per_share` and
-- sends lamports to the reward vault; `claim` and `unstake` settle a change of tier, compare the
-- accumulator with the staker's `reward_debt` and pay out of the reward vault. Proposals are created,
-- voted on and closed; a passed sell proposal lets an exit tracker be opened.
--
-- Which file models which part:
--   Base        tests on numbers, lists, lists of bytes, signed integers for timestamps, accounts by key.
--   Errors      errors.rs, and the result type of a handler; an error carries no state, since a failed
--               instruction changes nothing on chain.
--   Checked     checked and saturating arithmetic on words of 64 and 128 bits.
--   Constants   constants.rs. State: the accounts of programs/brain-staking/src/state, field by field.
--   Runtime     balances and the transfers of the token and system programs, which are parameters;
--               Runtime.Laws names what the theorems assume of them: a transfer that succeeds moves
--               the amount and nothing else. Which accounts the program may debit directly
--               (`may_debit`), and which address the seeds of emergency_rescue.rs sign for, are
--               parameters too; that a `SystemAccount` is owned by the system program is left to the first.
--   Multiplier  helpers.rs. Rewards: the arithmetic that claim.rs and unstake.rs share.
--   Staking     initialize.rs, stake.rs, deposit_rewards.rs, claim.rs, unstake.rs, emergency_rescue.rs:
--               one function per handler (`handle_claim` for `handle_claim`), cut where the source has
--               its numbered steps. Staking.Refusal and Staking.Rescue.Refusal are about the payments
--               and the rescue that the runtime or the token program refuses.
--   Ledger      the staking instructions over all staker accounts, with the account constraints, and
--               runs of them (Ledger.Steps) with administrative instructions, halts and changes of the
--               balances from outside in between; the rescue is apart from these, in Ledger.Rescue.
--   Admin       resume.rs, update_crank.rs, update_treasury.rs, update_pool_config.rs and the three
--               instructions on ownership, and runs of them (Admin.Ownership). Exits: the five
--               instructions on exit trackers, and runs of them with realloc_dlmm_exit.rs (Exits.Runs).
--   Governance  initialize_governance.rs, set_quorum.rs, set_auto_execute.rs (Config),
--               create_proposal.rs (Proposals), cast_vote.rs and close_vote_record.rs (Voting),
--               close_proposal.rs (Closing), what passed proposals allow (Execution), and the life of
--               a proposal with the vote records on it (Election).
--   Halt        emergency_halt.rs: the walk over accounts given as lists of bytes (`halt_accounts`),
--               whose length bounds the loop; Halt.Layout says what the offsets mean in a tracker.
--   Realloc     realloc_dlmm_exit.rs, realloc_governance_config.rs, realloc_proposal.rs and
--               realloc_staking_pool.rs, which share `realloc_account`.
--   Program     lib.rs: all accounts together, the instructions as data (Program.Instruction), and
--               `process`, which finds the accounts, runs the handler and writes back (Program.Dispatch);
--               Program.Runs and Program.Coverage relate runs of it to runs of Ledger,
--               Program.Elections and Program.Ballots its proposals to those of Election.
--   Tests       a concrete runtime, pool and run, and each theorem at a concrete input.
--
-- State and bounds. A public key is a number; u64 and u128 values are numbers whose widths the
-- operations check as the source does, with a failed check as `math_overflow` or a panic. Lists are
-- walked by structural recursion, so that no fuel is needed. The clock is an argument. A user who signs
-- is taken to be neither the reward vault nor the pool, which have no private key.
--
-- Not modelled: the derivation of addresses from seeds, the rent of accounts that are created or
-- closed, logs, and the TypeScript crank. Program leaves out the reallocations, which need the lengths of
-- accounts that it does not keep. `AccountInfo::realloc`, the size of each account type and how the
-- framework encodes an account are parameters. The two governance updates do not mark the pool and the
-- proposal as mutable: Governance.Execution has them as the handlers leave them in memory, and Program
-- does not write them back. Neither does Ledger write the pool back after emergency_rescue.rs.
pub mod Base
pub mod Errors
pub mod Checked
pub mod Constants
pub mod State
pub mod Runtime
pub mod Multiplier
pub mod Rewards
pub mod Staking
pub mod Ledger
pub mod Admin
pub mod Exits
pub mod Halt
pub mod Governance
pub mod Realloc
pub mod Program
pub mod Tests
