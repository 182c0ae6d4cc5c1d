-- ===== src/Keystore.antt =====
-- internal/keystore: key status, records and runtime statistics.
pub mod Examples
pub mod AsyncStore
pub mod FileStore
pub mod Record
pub mod Status
pub mod RuntimeStats
