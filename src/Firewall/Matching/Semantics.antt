-- ===== src/Firewall/Matching/Semantics.antt =====
-- What the shadowing test says of the packets that two rules match.
use fyrwall.Base.{String, ◌≡◌, ◌≢◌, true, ◌⊎◌, arith, eq_iff}
use fyrwall.Base.Int.{ℤ}
use fyrwall.Firewall.Rules.{Rule}
use fyrwall.Firewall.Ports.Semantics.{MatchesPort, port_subset_sound}
use fyrwall.Firewall.Matching.{
  family_subset, proto_subset, interfaces_subset, match_subset, shadows,
}

-- What a rule's test on a packet sees of it, but for the addresses, the outgoing interface and
-- the connection state.
pub record Header : Type 0 where
  pub direction : String
  pub family : String
  pub protocol : String
  pub source_port : ℤ
  pub destination_port : ℤ
  pub interface_in : String

pub record MatchesHeader (r : Rule) (p : Header) : Type 0 where
  pub direction : r.direction ≡ p.direction
  pub family : (r.family ≡ p.family) ⊎ (r.family ≡ "both")
  pub protocol : (r.protocol ≡ p.protocol) ⊎ (r.protocol ≡ "any")
  pub source_port : MatchesPort r.source_port p.source_port
  pub destination_port : MatchesPort r.destination_port p.destination_port
  pub interface_in : (r.interface_in ≡ "") ⊎ (r.interface_in ≡ p.interface_in)

family_subset_sound :
    (sub super f : String)
    → family_subset sub super ≡ true
    → (sub ≡ f) ⊎ (sub ≡ "both")
    → (super ≡ f) ⊎ (super ≡ "both")
unfolding family_subset
family_subset_sound sub super f h m = ground (arith, eq_iff sub super, eq_iff super "both")

proto_subset_sound :
    (sub super f : String)
    → proto_subset sub super ≡ true
    → (sub ≡ f) ⊎ (sub ≡ "any")
    → (super ≡ f) ⊎ (super ≡ "any")
unfolding proto_subset
proto_subset_sound sub super f h m = ground (arith, eq_iff sub super, eq_iff super "any")

interfaces_subset_sound :
    (sub super : Rule) (i : String)
    → interfaces_subset sub super ≡ true
    → (sub.interface_in ≡ "") ⊎ (sub.interface_in ≡ i)
    → (super.interface_in ≡ "") ⊎ (super.interface_in ≡ i)
unfolding interfaces_subset
interfaces_subset_sound sub super i h m = ground (
  arith,
  eq_iff sub.interface_in "",
  eq_iff super.interface_in "",
  eq_iff super.interface_in sub.interface_in,
)

-- If an earlier rule is found to shadow a later one, it is no log rule, and it matches every
-- header (direction, family, protocol, ports, incoming interface) that the later rule matches.
pub shadows_sound :
    (a b : Rule) (p : Header)
    → shadows a b ≡ true
    → MatchesHeader b p
    → (a.action ≢ "log") × MatchesHeader a p
unfolding shadows match_subset
shadows_sound a b p h m = ground (
  arith,
  eq_iff a.action "log",
  eq_iff b.direction a.direction,
  family_subset_sound b.family a.family p.family,
  proto_subset_sound b.protocol a.protocol p.protocol,
  port_subset_sound b.source_port a.source_port p.source_port,
  port_subset_sound b.destination_port a.destination_port p.destination_port,
  interfaces_subset_sound b a p.interface_in,
)

-- A selector that names an incoming interface, under one that names none, is judged without a
-- look at the outgoing interfaces.
pub match_subset_skips_out :
    (sub super : Rule) (out : String)
    → sub.interface_in ≢ ""
    → super.interface_in ≡ ""
    → match_subset sub super ≡ match_subset sub (record super { interface_out = out })
unfolding match_subset interfaces_subset
match_subset_skips_out sub super out h e =
    ground (arith, eq_iff sub.interface_in "", eq_iff super.interface_in "")
