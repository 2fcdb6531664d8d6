-- ===== src/Contract/Events.antt =====
-- src/proxyloop/contract/events.py: the event envelope, the registry and the log's rules.
pub mod Payload
pub mod Envelope
pub mod Causes
