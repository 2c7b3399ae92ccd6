-- ===== src/Desktopcore.antt =====
-- internal/desktopcore: the core of the desktop program.
pub mod Helpers
pub mod Oplog
pub mod Replica
pub mod Batches
pub mod Apply
pub mod Auth
pub mod Scans
pub mod Tests
pub mod ScanTests
pub mod BatchTests
