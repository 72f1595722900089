-- ===== src/Firewall/Conflicts/Lockout.antt =====
-- internal/firewall/conflicts.go: which candidate rules the lockout checks report, told by the
-- fields of the rules.
use text.Mathlib.Text.{◌==◌}
use fyrwall.Base.{
  String, ◌≡◌, ◌⊎◌, inl, inr, ◌↔◌, refl, true, false, Option, none, some, List, [], ◌∷◌, arith, any,
  eq_iff, ◌∙◌, sym,
}
use fyrwall.Base.Int.{◌≤ℤ◌}
use fyrwall.Base.Text.{split, unsigned}
use fyrwall.Net.Parse.{v4, parse_ip, parse_addr, parse_ip4}
use fyrwall.Net.Prefix.{Cidr, parse_cidr, net_contains}
use fyrwall.Firewall.Rules.{Rule}
use fyrwall.Firewall.Ports.{port_range, normalize_empty, port_intersects}
use fyrwall.Firewall.Addresses.{addr_covers, addr_overlap}
use fyrwall.Firewall.Conflicts.{cuts_off, covers_loopback, is_inbound_block, analyze_conflicts}
use fyrwall.Firewall.Conflicts.Critical.{is_critical, locks_out, analyze-locks_out}

-- an inbound rule that denies, rejects or drops
abbrev pub Blocks : Rule → Type 0
Blocks c =
    (c.direction ≡ "in") × ((c.action ≡ "deny") ⊎ ((c.action ≡ "reject") ⊎ (c.action ≡ "drop")))

-- a network that has the address 127.0.0.1 in it, or that very text
abbrev pub HoldsLoopback : String → Option Cidr → Type 0
HoldsLoopback s none = s ≡ "127.0.0.1"
HoldsLoopback s (some c) = net_contains c.net (v4 0x7f000001) ≡ true

abbrev pub ReachesLoopback : String → Type 0
ReachesLoopback s = (s ≡ "") ⊎ ((s ≡ "any") ⊎ HoldsLoopback s (parse_cidr s))

-- a field that restricts nothing
abbrev pub IsOpen : String → Type 0
IsOpen s = (s ≡ "") ⊎ ((s ≡ "any") ⊎ ((s ≡ "*") ⊎ ((s ≡ "0.0.0.0/0") ⊎ (s ≡ "::/0"))))

-- Two port fields, each read as one port or range: a list of ports reads as no range of its own.
abbrev pub PortsMeet : String → String → Type 0
PortsMeet p q =
    IsOpen p
    ⊎ (IsOpen q
        ⊎ (((port_range p).lo ≤ℤ (port_range q).hi) × ((port_range q).lo ≤ℤ (port_range p).hi)))

-- Two sources of which one is open, or of one text: networks are not compared.
abbrev pub SourcesMeet : String → String → Type 0
SourcesMeet p q = IsOpen p ⊎ (IsOpen q ⊎ (p ≡ q))

abbrev pub MeetsAllow : Rule → Rule → Type 0
MeetsAllow c r =
    (r.action ≡ "allow")
    × (r.direction ≡ "in")
    × PortsMeet c.destination_port r.destination_port
    × SourcesMeet c.source r.source

abbrev pub MeetsSome : Rule → List Rule → Type 0
MeetsSome c [] = ⊥
MeetsSome c (r ∷ rs) = MeetsAllow c r ⊎ MeetsSome c rs

abbrev pub LocksOut : List Rule → Rule → Type 0
LocksOut existing c =
    Blocks c × ((ReachesLoopback c.source ⊎ ReachesLoopback c.destination) ⊎ MeetsSome c existing)

loopback_parses : parse_ip "127.0.0.1" ≡ some (v4 0x7f000001)
unfolding parse_ip parse_addr parse_ip4 split unsigned
loopback_parses = refl

covers_by :
    (s : String) (o : Option Cidr)
    → (elim o [ some c ↦ net_contains c.net (v4 0x7f000001) | none ↦ s == "127.0.0.1" ] ≡ true)
      ↔ HoldsLoopback s o
covers_by s none = eq_iff s "127.0.0.1"
covers_by s (some c) = (λ h. h, λ h. h)

addr_covers_iff : (s : String) → (addr_covers s "127.0.0.1" ≡ true) ↔ ReachesLoopback s
unfolding addr_covers
addr_covers_iff s =
    rw loopback_parses
      (let t = covers_by s (parse_cidr s) in ground (arith, t, eq_iff s "", eq_iff s "any"))

-- an open field is read as empty, and any other as itself
normalize_empty-cases :
    (s : String)
    → (IsOpen s × (normalize_empty s ≡ ""))
      ⊎ ((IsOpen s → ⊥) × (normalize_empty s ≡ s) × ((s == "") ≡ false))
unfolding normalize_empty
normalize_empty-cases s =
    ground (arith, eq_iff s "", eq_iff s "any", eq_iff s "*", eq_iff s "0.0.0.0/0", eq_iff s "::/0")

port_intersects-PortsMeet : (p q : String) → (port_intersects p q ≡ true) ↔ PortsMeet p q
unfolding port_intersects
port_intersects-PortsMeet p q = elim (normalize_empty-cases p) [
  | inl (o, e) ↦ (λ h. inl o, λ m. rw e refl)
  | inr (n, e, f) ↦ elim (normalize_empty-cases q) [
    | inl (o, e2) ↦ (λ h. inr (inl o), λ m. rw (e, e2, f) refl)
    | inr (n2, e2, f2) ↦ rw (e, e2, f, f2) (ground (arith, n, n2))
  ]
]

addr_overlap-SourcesMeet : (p q : String) → (addr_overlap p q ≡ true) ↔ SourcesMeet p q
unfolding addr_overlap
addr_overlap-SourcesMeet p q = elim (normalize_empty-cases p) [
  | inl (o, e) ↦ (λ h. inl o, λ m. rw e refl)
  | inr (n, e, f) ↦ elim (normalize_empty-cases q) [
    | inl (o, e2) ↦ (λ h. inr (inl o), λ m. rw (e, e2, f) refl)
    | inr (n2, e2, f2) ↦ rw (e, e2, f, f2) (ground (arith, n, n2, eq_iff p q))
  ]
]

cuts_off-MeetsAllow : (c r : Rule) → (cuts_off c r ≡ true) ↔ MeetsAllow c r
unfolding cuts_off
cuts_off-MeetsAllow c r =
    let ports = port_intersects-PortsMeet c.destination_port r.destination_port in
    let sources = addr_overlap-SourcesMeet c.source r.source in
    ground (arith, ports, sources, eq_iff r.action "allow", eq_iff r.direction "in")

any-MeetsSome : (c : Rule) (rs : List Rule) → (any (cuts_off c) rs ≡ true) ↔ MeetsSome c rs
unfolding any
any-MeetsSome c [] = (λ h. cc, λ h. absurd h)
any-MeetsSome c (r ∷ rs) =
    let here = cuts_off-MeetsAllow c r in
    let there = any-MeetsSome c rs in ground (arith, here, there)

is_inbound_block-Blocks : (c : Rule) → (is_inbound_block c ≡ true) ↔ Blocks c
unfolding is_inbound_block
is_inbound_block-Blocks c = ground (
  arith,
  eq_iff c.direction "in",
  eq_iff c.action "deny",
  eq_iff c.action "reject",
  eq_iff c.action "drop",
)

pub locks_out_iff : (rs : List Rule) (c : Rule) → (locks_out rs c ≡ true) ↔ LocksOut rs c
unfolding covers_loopback
locks_out_iff rs c =
    let block = is_inbound_block-Blocks c in
    let source = addr_covers_iff c.source in
    let destination = addr_covers_iff c.destination in
    let allow = any-MeetsSome c rs in ground (arith, block, source, destination, allow)

-- The analysis of a candidate reports a critical conflict exactly when the candidate denies,
-- rejects or drops inbound traffic and either its source or destination is empty, "any", the text
-- 127.0.0.1 or a network that holds this address, or there is an inbound allow rule such that of
-- the two destination ports one is open or both, each read as one range, meet, and of the two
-- sources one is open or both are the same text.
pub analyze_critical :
    (existing : List Rule) (c : Rule)
    → (any is_critical (analyze_conflicts existing (some c)) ≡ true) ↔ LocksOut existing c
analyze_critical existing c =
    let e = analyze-locks_out existing c in
    let t = locks_out_iff existing c in (λ h. t.0 (sym e ∙ h), λ h. e ∙ t.1 h)
