-- ===== src/Firewall/Manager.antt =====
-- internal/firewall/manager.go: the manager, over an abstract backend.
pub mod Backend
pub mod State
pub mod Pipeline
