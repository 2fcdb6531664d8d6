-- ===== src/Core.antt =====
-- src/proxyloop/core: the log, its fold into the blackboard, and the bus that writes both.
pub mod Log
pub mod Reducers
pub mod Fold
pub mod Bus
pub mod Agreement
