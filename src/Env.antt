-- ===== src/Env.antt =====
-- src/proxyloop/env: the world that the agent calls.
pub mod World
pub mod Tasks
pub mod Ledger
pub mod Counterparty
