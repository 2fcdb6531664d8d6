-- ===== src/Guard/Authorize.antt =====
-- src/proxyloop/guard/authorize.py: what may be asked, accepted, declined, shared and decided. A rule
-- returns the payloads of the events to emit, or why not.
pub mod Reasons
pub mod Offers
pub mod Accept
pub mod Decide
