-- ===== src/Tests/Open.antt =====
-- One name that opens the whole firewall model, for the tests by evaluation.
use fyrwall.Base.{filter, any, every, get, put, remove}
use fyrwall.Base.Text.{
  cut, contains, split, replace_all, join, show_nat, itoa, digits, unsigned, atoi,
}
use fyrwall.Net.Parse.{parse_ip4, parse_ip6, parse_addr, parse_ip}
use fyrwall.Net.Prefix.{parse_cidr, net_contains, is_loopback}
use fyrwall.Firewall.Ports.{port_range, normalize_empty, port_subset, port_intersects}
use fyrwall.Firewall.Addresses.{
  addr_subset, addr_covers, addr_overlap, check_family, validate_addr, is_loopback_spec,
}
use fyrwall.Firewall.Matching.{
  family_subset, proto_subset, interfaces_subset, match_subset, shadows, same_match, same_rule,
}
use fyrwall.Firewall.Conflicts.{
  duplicate, overlap, shadowed, pairwise, against, all_pairs, management_lockout, ssh_lockout,
  ssh_lockouts, cuts_off, covers_loopback, is_inbound_block, lockout_checks, analyze_conflicts,
}
use fyrwall.Firewall.Conflicts.Order.{sink, sort_from, sort_by_priority}
use fyrwall.Firewall.Conflicts.Dedupe.{conflict_key, is_seen, dedupe_from, dedupe}
use fyrwall.Firewall.Validation.{
  validate_port_field, is_family, is_direction, is_action, is_protocol, has_ports, address_faults,
  is_interface_char, bad_char, interface_faults, blocks_ipc, validate_rule, without, action_faults,
  action_conflicts, all_faults, all_conflicts, critical_faults, validate_tx,
}

unfoldable pub firewall_code : Unit {0}
unfolding filter any every get put remove cut contains split replace_all join show_nat itoa digits
    unsigned atoi parse_ip4 parse_ip6 parse_addr parse_ip parse_cidr net_contains is_loopback
    port_range normalize_empty port_subset port_intersects addr_subset addr_covers addr_overlap
    check_family validate_addr is_loopback_spec family_subset proto_subset interfaces_subset
    match_subset shadows same_match same_rule duplicate overlap shadowed pairwise against all_pairs
    management_lockout ssh_lockout ssh_lockouts cuts_off covers_loopback is_inbound_block
    lockout_checks analyze_conflicts sink sort_from sort_by_priority conflict_key is_seen
    dedupe_from dedupe validate_port_field is_family is_direction is_action is_protocol has_ports
    address_faults is_interface_char bad_char interface_faults blocks_ipc validate_rule without
    action_faults action_conflicts all_faults all_conflicts critical_faults validate_tx
firewall_code = tt
