-- ===== src/Firewall/Addresses.antt =====
-- The address fields of internal/firewall/conflicts.go and validation.go.
pub mod Containment
use text.Mathlib.Text.{◌==◌, starts_with}
use fyrwall.Base.{
  String, Bool, true, false, ◌&&◌, ◌||◌, Option, none, some, List, [], ◌∷◌, if◌then◌else◌,
}
use fyrwall.Base.Text.{contains, split}
use fyrwall.Net.Parse.{Ip, v4, v6, parse_ip}
use fyrwall.Net.Prefix.{Cidr, parse_cidr, net_contains, is_loopback}
use fyrwall.Firewall.Ports.{normalize_empty}
use fyrwall.Firewall.Rules.{
  AddressFault, invalid_cidr, invalid_ip, Display, written, prefix, ip6_in_ipv4, ip4_in_ipv6,
}

-- `ip != nil && net.Contains(ip)`
abbrev pub holds : Cidr → Option Ip → Bool
holds c none = false
holds c (some x) = net_contains c.net x

-- the `switch` over which of the two texts parse as CIDR
abbrev pub cidr_subset : String → String → Option Cidr → Option Cidr → Bool
cidr_subset sub super (some c) (some d) = net_contains d.net c.ip
cidr_subset sub super none (some d) = holds d (parse_ip sub)
cidr_subset sub super (some c) none = holds c (parse_ip super)
cidr_subset sub super none none = false

unfoldable pub addr_subset : String → String → Bool
addr_subset sub super =
    let a = normalize_empty sub in
    let b = normalize_empty super in
    if b == "" || b == "any"
    then true
    else if a == b
    then true
    else cidr_subset a b (parse_cidr a) (parse_cidr b)

-- `addrCovers(spec, ip)`
unfoldable pub addr_covers : String → String → Bool
addr_covers spec ip = if spec == "" || spec == "any" then true else elim (parse_ip ip) [
  | none ↦ false
  | some x ↦ elim (parse_cidr spec) [ some c ↦ net_contains c.net x | none ↦ spec == ip ]
]

unfoldable pub addr_overlap : String → String → Bool
addr_overlap p q =
    let a = normalize_empty p in let b = normalize_empty q in a == "" || b == "" || a == b

unfoldable pub check_family : Ip → Display → String → Option AddressFault
check_family (v4 n) display fam = if fam == "ipv6" then some (ip4_in_ipv6 display) else none
check_family (v6 n) display fam = if fam == "ipv4" then some (ip6_in_ipv4 display) else none

unfoldable pub validate_addr : String → String → Option AddressFault
validate_addr s fam =
    if contains b'/' s
    then elim (parse_cidr s) [
      | none ↦ some (invalid_cidr s)
      | some c ↦ check_family c.ip (prefix c.net) fam
    ]
    else elim (parse_ip s) [ none ↦ some (invalid_ip s) | some x ↦ check_family x (written s) fam ]

-- `strings.Split(addr, "/")[0]`
abbrev pub first : List String → String
first [] = ""
first (p ∷ ps) = p

unfoldable pub is_loopback_spec : String → Bool
is_loopback_spec addr =
    if addr == "" || addr == "any"
    then false
    else if starts_with addr "127." || addr == "::1" || addr == "lo"
    then true
    else elim (parse_ip (first (split b'/' addr))) [ none ↦ false | some x ↦ is_loopback x ]
