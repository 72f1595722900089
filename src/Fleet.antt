-- ===== src/Fleet.antt =====
-- internal/database/fleet.go: the fleet database of agents, enrollment, commands and rollouts.
pub mod Tables
pub mod Agents
pub mod Commands
pub mod Rollouts
