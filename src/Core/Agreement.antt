-- ===== src/Core/Agreement.antt =====
-- What the guard allows the fold accepts: guard/authorize.py and guard/capability.py against
-- core/fold.py.
pub mod FirstAccept
pub mod Release
pub mod Opened
pub mod Decide
pub mod Request
pub mod Facts
pub mod Granted
pub mod Accept
