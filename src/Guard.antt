-- ===== src/Guard.antt =====
-- src/proxyloop/guard: the rules that grant, deny and verify.
pub mod Status
pub mod Capability
pub mod Policy
pub mod Terms
pub mod Readback
pub mod Mandate
pub mod Authorize
pub mod Verify
pub mod Needs
pub mod Readiness
pub mod Holds
