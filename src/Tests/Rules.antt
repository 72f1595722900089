-- ===== src/Tests/Rules.antt =====
-- Ports, addresses, matching, conflicts, checks on one rule and ownership, at concrete inputs.
use fyrwall.Base.{◌↔◌, ◌≡◌, ◌≢◌, refl, true, inl, inr, some, [], ◌∷◌, any, arith}
use fyrwall.Base.Int.{pos}
use fyrwall.Base.Text.Laws.{ne_of_test}
use fyrwall.Firewall.Rules.{Rule}
use fyrwall.Firewall.Ports.Semantics.{IsPortField, IsPortList}
use fyrwall.Firewall.Addresses.Containment.{IsNetwork4}
use fyrwall.Firewall.Matching.Semantics.{Header, MatchesHeader, shadows_sound}
use fyrwall.Firewall.Conflicts.{analyze_conflicts}
use fyrwall.Firewall.Conflicts.Critical.{is_critical, locks_out}
use fyrwall.Firewall.Conflicts.Lockout.{LocksOut, analyze_critical}
use fyrwall.Firewall.Validation.WellFormed.{IsWellFormed, validate_rule_sound}
use fyrwall.Tests.Open.{firewall_code}
use fyrwall.Tests.Data.{allow_ssh, deny_low}

ports_22 : IsPortField "22"
unfolding firewall_code
ports_22 = record { well_formed = inr (refl, omega arith) }

ports_20_30 : IsPortField "20:30"
unfolding firewall_code
ports_20_30 = record { well_formed = inr (refl, omega arith) }

ports_22_80 : IsPortList "22,80"
unfolding firewall_code
ports_22_80 = record { some_text = ne_of_test "22,80" "" refl; unread = refl }

network_10 : IsNetwork4 "10.0.0.0/8" 0x0a000000 8
unfolding firewall_code
network_10 = record {
  parses = refl;
  some_text = ne_of_test "10.0.0.0/8" "" refl;
  not_any = ne_of_test "10.0.0.0/8" "any" refl;
  short = omega arith;
}

network_10_0 : IsNetwork4 "10.0.0.0/16" 0x0a000000 16
unfolding firewall_code
network_10_0 = record {
  parses = refl;
  some_text = ne_of_test "10.0.0.0/16" "" refl;
  not_any = ne_of_test "10.0.0.0/16" "any" refl;
  short = omega arith;
}

-- a rule for every port that stands before the rule for port 22
abbrev wide : Rule
wide = record allow_ssh { id = "w"; destination_port = "" }

abbrev ssh_packet : Header
ssh_packet = record {
  direction = "in";
  family = "ipv4";
  protocol = "tcp";
  source_port = pos 5000;
  destination_port = pos 22;
  interface_in = "eth0";
}

ssh_matches : MatchesHeader allow_ssh ssh_packet
unfolding firewall_code
ssh_matches = record {
  direction = refl;
  family = inl refl;
  protocol = inl refl;
  source_port = inl refl;
  destination_port = inr (refl, omega arith, omega arith);
  interface_in = inl refl;
}

shadows_sound_example : (wide.action ≢ "log") × MatchesHeader wide ssh_packet
unfolding firewall_code
shadows_sound_example = shadows_sound wide allow_ssh ssh_packet refl ssh_matches

analyze_critical_example :
    (any is_critical (analyze_conflicts (allow_ssh ∷ []) (some deny_low)) ≡ true)
    ↔ LocksOut (allow_ssh ∷ []) deny_low
analyze_critical_example = analyze_critical (allow_ssh ∷ []) deny_low

deny_locks_out : locks_out (allow_ssh ∷ []) deny_low ≡ true
unfolding firewall_code
deny_locks_out = refl

validate_rule_sound_example : IsWellFormed deny_low
unfolding firewall_code
validate_rule_sound_example = validate_rule_sound deny_low refl
