-- ===== src/Firewall/Matching.antt =====
-- internal/firewall/conflicts.go: when one rule matches a part of what another rule matches.
pub mod Semantics
use text.Mathlib.Text.{◌==◌}
use fyrwall.Base.{String, Bool, true, false, not, ◌&&◌, ◌||◌, if◌then◌else◌}
use fyrwall.Firewall.Rules.{Rule}
use fyrwall.Firewall.Ports.{port_subset}
use fyrwall.Firewall.Addresses.{addr_subset}

unfoldable pub family_subset : String → String → Bool
family_subset sub super = if sub == super then true else if super == "both" then true else false

unfoldable pub proto_subset : String → String → Bool
proto_subset sub super = if sub == super then true else super == "any"

-- a rule that names no interface matches every interface
unfoldable pub interfaces_subset : Rule → Rule → Bool
interfaces_subset sub super =
    if not (super.interface_in == "") && not (super.interface_in == sub.interface_in)
    then false
    else if not (sub.interface_in == "") && super.interface_in == ""
    then true
    else if not (super.interface_out == "") && not (super.interface_out == sub.interface_out)
    then false
    else true

unfoldable pub match_subset : Rule → Rule → Bool
match_subset sub super =
    if not (sub.direction == super.direction)
    then false
    else if not (family_subset sub.family super.family)
    then false
    else if not (proto_subset sub.protocol super.protocol)
    then false
    else if not (addr_subset sub.source super.source)
    then false
    else if not (addr_subset sub.destination super.destination)
    then false
    else if not (port_subset sub.source_port super.source_port)
    then false
    else if not (port_subset sub.destination_port super.destination_port)
    then false
    else interfaces_subset sub super

-- does the earlier rule make the later one unreachable?
unfoldable pub shadows : Rule → Rule → Bool
shadows earlier later = if earlier.action == "log" then false else match_subset later earlier

-- the same selector; the action may differ
unfoldable pub same_match : Rule → Rule → Bool
same_match a b =
    a.family == b.family
    && a.direction == b.direction
    && a.protocol == b.protocol
    && a.source == b.source
    && a.source_port == b.source_port
    && a.destination == b.destination
    && a.destination_port == b.destination_port
    && a.interface_in == b.interface_in
    && a.interface_out == b.interface_out
    && a.state == b.state

unfoldable pub same_rule : Rule → Rule → Bool
same_rule a b =
    a.family == b.family
    && a.direction == b.direction
    && a.action == b.action
    && a.protocol == b.protocol
    && a.source == b.source
    && a.source_port == b.source_port
    && a.destination == b.destination
    && a.destination_port == b.destination_port
    && a.interface_in == b.interface_in
    && a.interface_out == b.interface_out
    && a.state == b.state
