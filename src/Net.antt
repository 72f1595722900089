-- ===== src/Net.antt =====
-- The part of Go's package `net` that the firewall code calls: `ParseIP`, `ParseCIDR`, `To4`,
-- `IPNet.Contains` and `IP.IsLoopback`. An address is the number that its bytes spell.
pub mod Parse
pub mod Prefix
