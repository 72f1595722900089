-- ===== src/Firewall/Addresses/Containment.antt =====
-- What `addr_subset` says of two IPv4 networks.
use fyrwall.Base.{ℕ, ◌≤◌, String, ◌≡◌, ◌≢◌, sym, ◌∙◌, true, some, arith, eq_iff}
use fyrwall.Net.Parse.{v4}
use fyrwall.Net.Prefix.{net_contains, parse_cidr}
use fyrwall.Net.Prefix.Laws.{network4, contains4_trans, contains4_base}
use fyrwall.Firewall.Ports.{normalize_empty}
use fyrwall.Firewall.Addresses.{addr_subset}

-- The text is the IPv4 network of the address `n` under a prefix of `p` bits.
pub record IsNetwork4 (s : String) (n p : ℕ) : Type 0 where
  pub parses : parse_cidr (normalize_empty s) ≡ some (record { ip = v4 n; net = network4 n p })
  pub some_text : normalize_empty s ≢ ""
  pub not_any : normalize_empty s ≢ "any"
  pub short : p ≤ 32

-- On two IPv4 networks the answer is whether the second holds the address of the first.
addr_subset-networks :
    (sub super : String) {n p m q : ℕ}
    → IsNetwork4 sub n p
    → IsNetwork4 super m q
    → normalize_empty sub ≢ normalize_empty super
    → addr_subset sub super ≡ net_contains (network4 m q) (v4 n)
unfolding addr_subset
addr_subset-networks sub super a b h = ground (
  arith,
  a.parses,
  b.parses,
  b.some_text,
  b.not_any,
  eq_iff (normalize_empty super) "",
  eq_iff (normalize_empty super) "any",
  eq_iff (normalize_empty sub) (normalize_empty super),
)

-- Where the second of two IPv4 networks has no longer prefix than the first, a positive answer of
-- `addr_subset` means that every IPv4 address of the first lies in the second.
pub addr_subset_sound :
    (sub super : String) (n p m q x : ℕ)
    → IsNetwork4 sub n p
    → IsNetwork4 super m q
    → normalize_empty sub ≢ normalize_empty super
    → q ≤ p
    → addr_subset sub super ≡ true
    → net_contains (network4 n p) (v4 x) ≡ true
    → net_contains (network4 m q) (v4 x) ≡ true
addr_subset_sound sub super n p m q x a b ne h outer inner =
    contains4_trans n p m q x h a.short (sym (addr_subset-networks sub super a b ne) ∙ outer) inner

-- Of two different texts for networks of one IPv4 address, each is found to be a subset of the
-- other, whatever their prefix lengths.
pub addr_subset_any_length :
    (s t : String) (n p q : ℕ)
    → IsNetwork4 s n p
    → IsNetwork4 t n q
    → normalize_empty s ≢ normalize_empty t
    → (addr_subset s t ≡ true) × (addr_subset t s ≡ true)
addr_subset_any_length s t n p q a b ne = (
  addr_subset-networks s t a b ne ∙ contains4_base n q,
  addr_subset-networks t s b a (λ e. ne (sym e)) ∙ contains4_base n p,
)
