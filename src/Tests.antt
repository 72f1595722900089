-- ===== src/Tests.antt =====
-- Tests of the definitions, and each theorem at an input that meets its hypotheses.
mod Auth
mod Data
mod Fleet
mod Health
mod Hosts
mod Api
mod Agent
mod Iptables
mod Ufw
mod Open
mod Rules
mod Transactions
mod Update
mod Sealing
mod Config
mod Records
mod FleetRequests
mod Logging
