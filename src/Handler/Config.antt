-- ===== src/Handler/Config.antt =====
-- internal/handler/management_handler.go: what its handlers do to the configuration of xray, as
-- functions of the decoded JSON.
pub mod Clients
pub mod Dedupe
pub mod Inbounds
pub mod Outbounds
pub mod Rules
pub mod Defaults
pub mod Unique
pub mod Ensure
pub mod Manage
pub mod Tests
