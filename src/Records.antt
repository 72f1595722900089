-- ===== src/Records.antt =====
-- internal/database/repos.go: the tables of notifications and of the audit trail.
pub mod Notifications
pub mod Recurrence
pub mod Audit
