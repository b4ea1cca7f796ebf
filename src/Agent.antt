-- ===== src/Agent.antt =====
-- internal/agent: when the agent connects to the master again.
pub mod Reconnect
