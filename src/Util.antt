-- ===== src/Util.antt =====
-- internal/util.
pub mod Guards
