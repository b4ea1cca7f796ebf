-- ===== src/Embedded.antt =====
-- internal/embedded: the monitor of the users' speeds.
pub mod Monitor
pub mod Tests
