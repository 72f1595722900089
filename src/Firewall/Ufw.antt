-- ===== src/Firewall/Ufw.antt =====
-- internal/firewall/ufw/ufw.go: the arguments made of a rule, and the parsers of the two
-- listings.
pub mod Arguments
pub mod Listing
pub mod Backend
