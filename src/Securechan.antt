-- ===== src/Securechan.antt =====
-- internal/securechan: the replay window, sessions and the session cache.
pub mod Bits
pub mod Window
pub mod Words
pub mod Session
pub mod Cache
pub mod Tests
