-- ===== src/Agent.antt =====
-- internal/agent: the operations that the privileged agent serves, and its session with the
-- server.
pub mod Server
pub mod Sync
