-- ===== src/Firewall/Iptables.antt =====
-- internal/firewall/iptables: the parser of the output of iptables-save (parser.go), and the
-- arguments made of a rule (iptables.go).
pub mod Parser
pub mod Arguments
pub mod Backend
