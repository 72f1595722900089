-- ===== src/Firewall/Validation/WellFormed.antt =====
-- internal/firewall/validation.go: the well-formedness of a rule.
use Prim.Native.String.{len}
use text.Mathlib.Text.{◌==◌, starts_with}
use fyrwall.Base.{
  ++-eq-nil, ◌≤◌, String, ◌≡◌, ◌≢◌, refl, Bool, true, false, not, ◌&&◌, ◌||◌, leb, ◌⊎◌, inl, inr,
  Option, none, some, [], arith, eq_iff, if◌then◌else◌, Option-cases, Bool-cases,
}
use fyrwall.Base.Text.{contains, split}
use fyrwall.Net.Parse.{Ip, v4, v6, parse_ip}
use fyrwall.Net.Prefix.{Cidr, parse_cidr, is_loopback}
use fyrwall.Firewall.Rules.{
  Rule, Fault, AddressFault, Display, written, prefix, source_address, destination_address,
  long_interface, interface_character,
}
use fyrwall.Firewall.Ports.{port_range}
use fyrwall.Firewall.Addresses.{validate_addr, check_family, is_loopback_spec, first}
use fyrwall.Firewall.Validation.{
  unless, optional, is_family, is_direction, is_action, is_protocol, has_ports, address_faults,
  validate_port_field, is_interface_char, bad_char, interface_faults, blocks_ipc, validate_rule,
}
use fyrwall.Firewall.Validation.PortField.{IsPortRange, validate_port_field_sound}

-- the address that a text spells, by itself or as a network
abbrev pub cidr_ip : Option Cidr → Option Ip
cidr_ip none = none
cidr_ip (some c) = some c.ip

abbrev pub spelled : String → Option Ip
spelled s = if contains b'/' s then cidr_ip (parse_cidr s) else parse_ip s

abbrev pub FitsFamily : Ip → String → Type 0
FitsFamily (v4 n) fam = fam ≢ "ipv6"
FitsFamily (v6 n) fam = fam ≢ "ipv4"

abbrev pub SpellsFor : String → Option Ip → Type 0
SpellsFor fam none = ⊥
SpellsFor fam (some ip) = FitsFamily ip fam

-- Nothing, "any", or an address or network of the rule's family.
abbrev pub IsAddressField : String → String → Type 0
IsAddressField s fam = (s ≡ "") ⊎ ((s ≡ "any") ⊎ SpellsFor fam (spelled s))

abbrev pub HasOnlyInterfaceChars : String → Type 0
HasOnlyInterfaceChars String.[] = Unit
HasOnlyInterfaceChars (String.◌∷◌ c s) = (is_interface_char c ≡ true) × HasOnlyInterfaceChars s

abbrev pub IsInterfaceField : String → Type 0
IsInterfaceField s = (s ≡ "") ⊎ ((len s ≤ 15) × HasOnlyInterfaceChars s)

-- A field that names no loopback address. One that is empty or "any" names none, although it
-- matches loopback traffic as well.
abbrev pub NamesNoLoopback : String → Type 0
NamesNoLoopback s =
    (s ≡ "")
    ⊎ ((s ≡ "any")
        ⊎ ((starts_with s "127." ≡ false)
            × (s ≢ "::1")
            × (s ≢ "lo")
            × ((ip : Ip) → parse_ip (first (split b'/' s)) ≡ some ip → is_loopback ip ≡ false)))

pub record IsWellFormed (r : Rule) : Type 0 where
  pub family : (r.family ≡ "ipv4") ⊎ ((r.family ≡ "ipv6") ⊎ (r.family ≡ "both"))
  pub direction : (r.direction ≡ "in") ⊎ ((r.direction ≡ "out") ⊎ (r.direction ≡ "forward"))
  pub action :
      (r.action ≡ "allow")
      ⊎ ((r.action ≡ "deny") ⊎ ((r.action ≡ "reject") ⊎ ((r.action ≡ "drop") ⊎ (r.action ≡ "log"))))
  pub protocol :
      (r.protocol ≡ "any")
      ⊎ ((r.protocol ≡ "tcp")
          ⊎ ((r.protocol ≡ "udp") ⊎ ((r.protocol ≡ "icmp") ⊎ (r.protocol ≡ "custom"))))
  pub source : IsAddressField r.source r.family
  pub destination : IsAddressField r.destination r.family
  pub source_port : (r.source_port ≡ "") ⊎ IsPortRange (port_range r.source_port)
  pub destination_port : (r.destination_port ≡ "") ⊎ IsPortRange (port_range r.destination_port)
  pub portless : r.protocol ≡ "icmp" → (r.source_port ≡ "") × (r.destination_port ≡ "")
  pub interface_in : IsInterfaceField r.interface_in
  pub interface_out : IsInterfaceField r.interface_out
  pub loopback :
      r.direction ≡ "in"
      → r.action ≢ "allow"
      → r.action ≢ "log"
      → NamesNoLoopback r.source × NamesNoLoopback r.destination

unless-nil : (b : Bool) (f : Fault) → unless b f ≡ [] → b ≡ true
unless-nil b f h = ground arith

optional-nil {ℓ} : {A : Type ℓ} (f : A → Fault) (o : Option A) → optional f o ≡ [] → o ≡ none
optional-nil f none h = refl
optional-nil f (some a) h = cc

check_family-none :
    (ip : Ip) (d : Display) (fam : String) → check_family ip d fam ≡ none → FitsFamily ip fam
unfolding check_family
check_family-none (v4 n) d fam h = λ e. ground (arith, eq_iff fam "ipv6")
check_family-none (v6 n) d fam h = λ e. ground (arith, eq_iff fam "ipv4")

validate_addr-none : (s fam : String) → validate_addr s fam ≡ none → SpellsFor fam (spelled s)
unfolding validate_addr
validate_addr-none s fam h = elim (Bool-cases (contains b'/' s)) [
  | inl slash ↦ elim (Option-cases (parse_cidr s)) [
    | inl e ↦ ground arith
    | inr w ↦ rw (slash, w.1) (check_family-none w.0.ip (prefix w.0.net) fam (ground (arith, w.1)))
  ]
  | inr plain ↦ elim (Option-cases (parse_ip s)) [
    | inl e ↦ ground arith
    | inr w ↦ rw (plain, w.1) (check_family-none w.0 (written s) fam (ground (arith, w.1)))
  ]
]

address_faults-nil :
    (f : AddressFault → Fault) (s fam : String) → address_faults f s fam ≡ [] → IsAddressField s fam
unfolding address_faults
address_faults-nil f s fam h = elim (Bool-cases (s == "")) [
  | inl e ↦ inl ((eq_iff s "").0 e)
  | inr some_text ↦ elim (Bool-cases (s == "any")) [
    | inl e ↦ inr (inl ((eq_iff s "any").0 e))
    | inr other ↦
        inr (inr (validate_addr-none s fam (optional-nil f (validate_addr s fam) (ground arith))))
  ]
]

port_none : (p : String) → validate_port_field p ≡ none → (p ≡ "") ⊎ IsPortRange (port_range p)
port_none p h = elim (Bool-cases (p == "")) [
  | inl e ↦ inl ((eq_iff p "").0 e)
  | inr some_text ↦ inr (validate_port_field_sound p (λ e. cc (some_text, (eq_iff p "").1 e)) h)
]

bad_char-none : (s : String) → bad_char s ≡ none → HasOnlyInterfaceChars s
unfolding bad_char
bad_char-none String.[] h = tt
bad_char-none (String.◌∷◌ c s) h = ground (arith, bad_char-none s)

interface_faults-nil : (n s : String) → interface_faults n s ≡ [] → IsInterfaceField s
unfolding interface_faults
interface_faults-nil n s h = elim (Bool-cases (s == "")) [
  | inl e ↦ inl ((eq_iff s "").0 e)
  | inr some_text ↦
      let (short, chars) =
        ++-eq-nil (unless (leb (len s) 15) (long_interface n s))
          (optional (interface_character n) (bad_char s)) (ground arith) in
      inr (
        ground (arith, unless-nil (leb (len s) 15) (long_interface n s) short),
        bad_char-none s (optional-nil (interface_character n) (bad_char s) chars),
      )
]

is_family-cases : (f : String) → is_family f ≡ true → (f ≡ "ipv4") ⊎ ((f ≡ "ipv6") ⊎ (f ≡ "both"))
unfolding is_family
is_family-cases f h = ground (arith, eq_iff f "ipv4", eq_iff f "ipv6", eq_iff f "both")

is_direction-cases :
    (d : String) → is_direction d ≡ true → (d ≡ "in") ⊎ ((d ≡ "out") ⊎ (d ≡ "forward"))
unfolding is_direction
is_direction-cases d h = ground (arith, eq_iff d "in", eq_iff d "out", eq_iff d "forward")

is_action-cases :
    (a : String)
    → is_action a ≡ true
    → (a ≡ "allow") ⊎ ((a ≡ "deny") ⊎ ((a ≡ "reject") ⊎ ((a ≡ "drop") ⊎ (a ≡ "log"))))
unfolding is_action
is_action-cases a h =
    ground
      (arith, eq_iff a "allow", eq_iff a "deny", eq_iff a "reject", eq_iff a "drop", eq_iff a "log")

is_protocol-cases :
    (p : String)
    → is_protocol p ≡ true
    → (p ≡ "any") ⊎ ((p ≡ "tcp") ⊎ ((p ≡ "udp") ⊎ ((p ≡ "icmp") ⊎ (p ≡ "custom"))))
unfolding is_protocol
is_protocol-cases p h =
    ground
      (arith, eq_iff p "any", eq_iff p "tcp", eq_iff p "udp", eq_iff p "icmp", eq_iff p "custom")

icmp_has_no_ports : (p : String) → p ≡ "icmp" → has_ports p ≡ false
unfolding has_ports
icmp_has_no_ports p e = rw e

portless_cases :
    (r : Rule)
    → ((r.source_port == "" && r.destination_port == "") || has_ports r.protocol) ≡ true
    → r.protocol ≡ "icmp"
    → (r.source_port ≡ "") × (r.destination_port ≡ "")
portless_cases r h e =
    ground
      (arith, eq_iff r.source_port "", eq_iff r.destination_port "", icmp_has_no_ports r.protocol e)

is_loopback_spec-none : (s : String) → is_loopback_spec s ≡ false → NamesNoLoopback s
unfolding is_loopback_spec
is_loopback_spec-none s h = elim (Bool-cases (s == "")) [
  | inl e ↦ inl ((eq_iff s "").0 e)
  | inr some_text ↦ elim (Bool-cases (s == "any")) [
    | inl e ↦ inr (inl ((eq_iff s "any").0 e))
    | inr other ↦ inr (
        inr (
          ground arith,
          λ e. ground (arith, (eq_iff s "::1").1 e),
          λ e. ground (arith, (eq_iff s "lo").1 e),
          λ ip e. ground (arith, e),
        ))
  ]
]

loopback_cases :
    (r : Rule)
    → not (blocks_ipc r) ≡ true
    → r.direction ≡ "in"
    → r.action ≢ "allow"
    → r.action ≢ "log"
    → NamesNoLoopback r.source × NamesNoLoopback r.destination
unfolding blocks_ipc
loopback_cases r h d a l =
    let source : is_loopback_spec r.source ≡ false =
      ground (arith, eq_iff r.direction "in", eq_iff r.action "allow", eq_iff r.action "log") in
    let destination : is_loopback_spec r.destination ≡ false =
      ground (arith, eq_iff r.direction "in", eq_iff r.action "allow", eq_iff r.action "log") in
    (is_loopback_spec-none r.source source, is_loopback_spec-none r.destination destination)

-- A rule with no faults is well formed: known family, direction, action and protocol, addresses
-- of its family, port ranges from 1 to 65535, no ports under ICMP, interface names of at most 15
-- allowed characters, and no inbound block whose source or destination names a loopback address
-- (an empty one or "any" names none, although it matches loopback traffic as well).
pub validate_rule_sound : (r : Rule) → validate_rule r ≡ [] → IsWellFormed r
unfolding validate_rule
validate_rule_sound r h =
    let (a1, h1) = ++-eq-nil _ _ h in
    let (a2, h2) = ++-eq-nil _ _ h1 in
    let (a3, h3) = ++-eq-nil _ _ h2 in
    let (a4, h4) = ++-eq-nil _ _ h3 in
    let (a5, h5) = ++-eq-nil _ _ h4 in
    let (a6, h6) = ++-eq-nil _ _ h5 in
    let (a7, h7) = ++-eq-nil _ _ h6 in
    let (a8, h8) = ++-eq-nil _ _ h7 in
    let (a9, h9) = ++-eq-nil _ _ h8 in
    let (a10, h10) = ++-eq-nil _ _ h9 in
    let (a11, a12) = ++-eq-nil _ _ h10 in
    record {
      family = is_family-cases r.family (unless-nil _ _ a1);
      direction = is_direction-cases r.direction (unless-nil _ _ a2);
      action = is_action-cases r.action (unless-nil _ _ a3);
      protocol = is_protocol-cases r.protocol (unless-nil _ _ a4);
      source = address_faults-nil source_address r.source r.family a5;
      destination = address_faults-nil destination_address r.destination r.family a6;
      source_port = port_none r.source_port (optional-nil _ _ a7);
      destination_port = port_none r.destination_port (optional-nil _ _ a8);
      portless = portless_cases r (unless-nil _ _ a9);
      interface_in = interface_faults-nil "interface_in" r.interface_in a10;
      interface_out = interface_faults-nil "interface_out" r.interface_out a11;
      loopback = loopback_cases r (unless-nil _ _ a12);
    }
