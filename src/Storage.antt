-- ===== src/Storage.antt =====
-- storage.py: the persistent registry of approved miners, rejections and incidents.
pub mod State
pub mod Serialize
pub mod Deserialize
pub mod Load
pub mod Operations
pub mod Storable
pub mod RoundTrip
pub mod Faults
pub mod Tests
