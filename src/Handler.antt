-- ===== src/Handler.antt =====
-- internal/handler: the transactions on the whole configuration of xray, and the edits of it.
pub mod Transaction
pub mod Config
pub mod Routing
pub mod Inbound
pub mod Auth
pub mod Nginx
pub mod Routes
pub mod Probes
pub mod Crypto
