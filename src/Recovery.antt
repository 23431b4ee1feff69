-- ===== src/Recovery.antt =====
-- recovery.py: the automatic recovery of approved miners.
pub mod State
pub mod Report
pub mod Handlers
pub mod Evaluate
pub mod Engine
pub mod Counting
pub mod Safety
pub mod Attempts
pub mod RateLimit
pub mod Restored
pub mod Lifecycle
pub mod Liveness
pub mod Tests
