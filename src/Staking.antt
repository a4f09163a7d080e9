-- ===== src/Staking.antt =====
-- The staking instructions, one module each.
pub mod Claim
pub mod Unstake
pub mod Stake
pub mod Deposit
pub mod Rescue
pub mod Initialize
pub mod Refusal
