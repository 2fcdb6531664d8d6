-- ===== src/Core/Reducers.antt =====
-- src/proxyloop/core/fold.py: one reducer for each type of event.
pub mod Errors
pub mod Lines
pub mod Offers
pub mod Authority
pub mod Release
