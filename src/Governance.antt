-- ===== src/Governance.antt =====
-- Governance: the configuration, proposals, votes and the execution of what has passed.
pub mod Config
pub mod Proposals
pub mod Voting
pub mod Closing
pub mod Execution
pub mod Election
