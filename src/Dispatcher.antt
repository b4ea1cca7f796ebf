-- ===== src/Dispatcher.antt =====
-- internal/dispatcher/default.go: what the dispatcher does with the limiter for each connection.
pub mod Conns
pub mod Tests
