-- ===== src/Contract.antt =====
-- src/proxyloop/contract: the types that the parts of a session exchange.
pub mod Base
pub mod Messages
pub mod Offers
pub mod Grants
pub mod State
pub mod Events
