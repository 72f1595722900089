-- ===== src/Firewall.antt =====
-- internal/firewall: the rule model, conflict analysis, validation, ownership and the manager.
pub mod Rules
pub mod Lines
pub mod Shell
pub mod Ports
pub mod Addresses
pub mod Matching
pub mod Conflicts
pub mod Validation
pub mod Ownership
pub mod Manager
pub mod Iptables
pub mod Ufw
