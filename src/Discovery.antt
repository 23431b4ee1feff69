-- ===== src/Discovery.antt =====
-- discovery/: candidates between their observation and the decision of an administrator, and the
-- scan of a private network that an administrator asks for.
pub mod Manager
pub mod Consent
pub mod Decisions
pub mod Network
pub mod ActiveScan
pub mod Scan
pub mod ScanStatus
pub mod Service
pub mod Tests
pub mod ScanTests
