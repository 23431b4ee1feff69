-- ===== src/Fleet.antt =====
-- The fleet of one config entry: coordinators that poll, totals over them, and the runtime that owns
-- both with the registry.
pub mod Aggregates
pub mod Device
pub mod AxeosDevice
pub mod Coordinator
pub mod Refresh
pub mod Actions
pub mod Mutations
pub mod Limits
pub mod Requested
pub mod ReadBack
pub mod Verified
pub mod Runtime
pub mod Tests
