-- ===== src/Firewall/Validation.antt =====
-- internal/firewall/validation.go and validate.go: the static checks on one rule, and the checks
-- on a transaction against the current rules.
pub mod PortField
pub mod WellFormed
pub mod Transactions
use Prim.Native.Char.{Char, code}
use Prim.Native.String.{len}
use text.Mathlib.Text.{◌==◌}
use fyrwall.Base.{
  ℕ, ◌<◌, String, Bool, true, false, not, ◌&&◌, ◌||◌, Option, none, some, List, [], ◌∷◌, ◌++◌, map,
  filter, is_empty, ltb, leb, ◌==◌ as nat_eq, if◌then◌else◌,
}
use fyrwall.Base.Int.{pos, ltbℤ}
use fyrwall.Base.Text.{Parsed, atoi, contains, cut}
use fyrwall.Firewall.Rules.{
  Rule, Conflict, AddressFault, PortFault, bad_range, range_out_of_bounds, bad_port, Fault,
  invalid_family, invalid_direction, invalid_action, invalid_protocol, source_address,
  destination_address, source_port, destination_port, ports_without_protocol, long_interface,
  interface_character, blocks_loopback, requires_rule, critical_conflict, ValidationResult,
  TxnAction, Transaction,
}
use fyrwall.Firewall.Addresses.{validate_addr, is_loopback_spec}
use fyrwall.Firewall.Conflicts.{analyze_conflicts}
use fyrwall.Firewall.Conflicts.Dedupe.{dedupe}

-- the two results of a `strings.SplitN(p, sep, 2)` whose separator is there
abbrev range_fault : String → Option (String × String) → Option PortFault
range_fault p none = some (bad_range p)
range_fault p (some (a, b)) =
    if not (atoi a).ok || not (atoi b).ok
    then some (bad_range p)
    else if ltbℤ (atoi a).value (pos 1)
        || ltbℤ (pos 65535) (atoi b).value
        || ltbℤ (atoi b).value (atoi a).value
    then some (range_out_of_bounds (atoi a).value (atoi b).value)
    else none

unfoldable pub validate_port_field : String → Option PortFault
validate_port_field p =
    if p == ""
    then none
    else if contains b'-' p || contains b':' p
    then range_fault p (cut (if contains b':' p && not (contains b'-' p) then b':' else b'-') p)
    else if not (atoi p).ok || ltbℤ (atoi p).value (pos 1) || ltbℤ (pos 65535) (atoi p).value
    then some (bad_port p)
    else none

unfoldable pub is_family : String → Bool
is_family f = f == "ipv4" || f == "ipv6" || f == "both"

unfoldable pub is_direction : String → Bool
is_direction d = d == "in" || d == "out" || d == "forward"

unfoldable pub is_action : String → Bool
is_action a = a == "allow" || a == "deny" || a == "reject" || a == "drop" || a == "log"

unfoldable pub is_protocol : String → Bool
is_protocol p = p == "any" || p == "tcp" || p == "udp" || p == "icmp" || p == "custom"

-- a protocol that ports make sense for
unfoldable pub has_ports : String → Bool
has_ports p = p == "any" || p == "tcp" || p == "udp" || p == "custom"

-- `errs = append(errs, …)` where a check fails
abbrev pub unless : Bool → Fault → List Fault
unless true f = []
unless false f = f ∷ []

abbrev pub optional {ℓ} : {A : Type ℓ} → (A → Fault) → Option A → List Fault
optional f none = []
optional f (some a) = f a ∷ []

unfoldable pub address_faults : (AddressFault → Fault) → String → String → List Fault
address_faults f s fam =
    if not (s == "") && not (s == "any") then optional f (validate_addr s fam) else []

unfoldable pub is_interface_char : Char → Bool
is_interface_char c =
    nat_eq (code c) b'.'
    || nat_eq (code c) b'-'
    || nat_eq (code c) b'@'
    || nat_eq (code c) b':'
    || (leb b'a' (code c) && leb (code c) b'z')
    || (leb b'A' (code c) && leb (code c) b'Z')
    || (leb b'0' (code c) && leb (code c) b'9')

-- the loop over the characters, which stops at the first that is not allowed
unfoldable pub bad_char : String → Option Char
bad_char String.[] = none
bad_char (String.◌∷◌ c s) = if is_interface_char c then bad_char s else some c

unfoldable pub interface_faults : String → String → List Fault
interface_faults name val =
    if val == ""
    then []
    else unless (leb (len val) 15) (long_interface name val)
      ++ optional (interface_character name) (bad_char val)

unfoldable pub blocks_ipc : Rule → Bool
blocks_ipc r =
    r.direction == "in"
    && not (r.action == "allow")
    && not (r.action == "log")
    && (is_loopback_spec r.source || is_loopback_spec r.destination)

unfoldable pub validate_rule : Rule → List Fault
validate_rule r =
    unless (is_family r.family) (invalid_family r.family)
    ++ (unless (is_direction r.direction) (invalid_direction r.direction)
        ++ (unless (is_action r.action) (invalid_action r.action)
            ++ (unless (is_protocol r.protocol) (invalid_protocol r.protocol)
                ++ (address_faults source_address r.source r.family
                    ++ (address_faults destination_address r.destination r.family
                        ++ (optional source_port (validate_port_field r.source_port)
                            ++ (optional destination_port (validate_port_field r.destination_port)
                                ++ (unless
                                      ((r.source_port == "" && r.destination_port == "")
                                        || has_ports r.protocol)
                                      (ports_without_protocol r.protocol)
                                    ++ (interface_faults "interface_in" r.interface_in
                                        ++ (interface_faults "interface_out" r.interface_out
                                            ++ unless (not (blocks_ipc r)) blocks_loopback))))))))))

-- the rules that an update, enable or disable does not replace
unfoldable pub without : TxnAction → Rule → List Rule → List Rule
without a replacement current =
    filter (λ r. not (not (a.rule_id == "") && r.id == a.rule_id) && not (r.id == replacement.id))
      current

-- what one action adds to `errs`
unfoldable pub action_faults : TxnAction → List Fault
action_faults a = elim a.rule [
  | none ↦
      if not (a.op == "delete") && not (a.op == "set_policy") then requires_rule a.op ∷ [] else []
  | some r ↦ validate_rule r
]

-- what one action adds to `conflicts`
unfoldable pub action_conflicts : List Rule → TxnAction → List Conflict
action_conflicts current a = elim a.rule [
  | none ↦ []
  | some r ↦
      if a.op == "add"
      then analyze_conflicts current (some r)
      else if a.op == "update" || a.op == "enable" || a.op == "disable"
      then analyze_conflicts (without a r current) (some r)
      else []
]

unfoldable pub all_faults : List TxnAction → List Fault
all_faults [] = []
all_faults (a ∷ rest) = action_faults a ++ all_faults rest

unfoldable pub all_conflicts : List Rule → List TxnAction → List Conflict
all_conflicts current [] = []
all_conflicts current (a ∷ rest) = action_conflicts current a ++ all_conflicts current rest

-- the summaries of the critical conflicts
unfoldable pub critical_faults : List Conflict → List Fault
critical_faults [] = []
critical_faults (c ∷ cs) =
    if c.severity == "CRITICAL"
    then critical_conflict c.summary ∷ critical_faults cs
    else critical_faults cs

unfoldable pub validate_tx : Transaction → List Rule → ValidationResult
validate_tx tx current =
    let conflicts = dedupe (all_conflicts current tx.actions) in
    let errs = all_faults tx.actions ++ critical_faults conflicts in
    record { valid = is_empty errs; errors = errs; conflicts = conflicts }
