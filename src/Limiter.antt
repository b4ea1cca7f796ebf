-- ===== src/Limiter.antt =====
-- internal/limiter: speed buckets, connection quotas and the registry of kick functions.
pub mod Types
pub mod Rate
pub mod Users
pub mod Conn
pub mod Kick
pub mod Buckets
pub mod Sample
pub mod Writes
pub mod Lookup
pub mod Tests
