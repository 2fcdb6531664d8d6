-- ===== src/Env/Counterparty.antt =====
-- src/proxyloop/env/counterparty/policy.py: the rep of the provider, a deterministic policy.
pub mod Acts
pub mod Accept
pub mod React
pub mod Timers
pub mod Meant
pub mod Moves
pub mod Reactions
pub mod Decided
pub mod Session
pub mod Counts
pub mod Safety
pub mod Orderly
pub mod Patience
