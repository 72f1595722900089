-- ===== src/Net/Prefix.antt =====
-- net.ParseCIDR and IPNet.Contains: a network is a prefix of an address.
pub mod Laws
use fyrwall.Base.{
  ℕ, ◌-◌, ◌*◌, ◌/◌, ◌^◌, String, ◌≡◌, refl, Bool, false, Option, none, some, leb, ◌==◌,
  if◌then◌else◌,
}
use fyrwall.Base.Text.{cut, split, unsigned}
use fyrwall.Net.Parse.{Raw, raw4, raw6, Ip, v4, v6, to4, parse_addr, parse_ip4}

-- The base address after `IP.Mask`, as `networkNumberAndMask` reads it, and the length of its
-- mask.
pub record Network : Type 0 where
  pub base : Ip
  pub ones : ℕ

-- What `ParseCIDR` returns: the address as written, and the network.
pub record Cidr : Type 0 where
  pub ip : Ip
  pub net : Network

abbrev pub keep : ℕ → ℕ → ℕ → ℕ
keep width ones n = n / 2 ^ (width - ones) * 2 ^ (width - ones)

-- a sixteen-byte mask over an IPv4 base counts from its byte 12
abbrev pub masked : Ip → ℕ → Network
masked (v4 n) ones = record { base = v4 n; ones = ones - 96 }
masked (v6 n) ones = record { base = v6 n; ones = ones }

abbrev pub network : Raw → ℕ → Network
network (raw4 n) ones = record { base = v4 (keep 32 ones n); ones = ones }
network (raw6 n) ones = masked (to4 (raw6 (keep 128 ones n))) ones

abbrev pub bit_len : Raw → ℕ
bit_len (raw4 n) = 32
bit_len (raw6 n) = 128

unfoldable pub parse_cidr : String → Option Cidr
parse_cidr s = elim (cut b'/' s) [
  | none ↦ none
  | some (addr, mask) ↦ elim (parse_addr addr) [
    | none ↦ none
    | some r ↦ elim (unsigned mask) [
      | none ↦ none
      | some n ↦ if leb n (bit_len r) then some (record { ip = to4 r; net = network r n }) else none
    ]
  ]
]

-- the leading `ones` bits agree
abbrev pub agree : ℕ → ℕ → ℕ → ℕ → Bool
agree width ones a b = a / 2 ^ (width - ones) == b / 2 ^ (width - ones)

abbrev pub contains_ip : Ip → ℕ → Ip → Bool
contains_ip (v4 a) ones (v4 b) = agree 32 ones a b
contains_ip (v6 a) ones (v6 b) = agree 128 ones a b
contains_ip (v4 a) ones (v6 b) = false
contains_ip (v6 a) ones (v4 b) = false

-- IPNet.Contains
unfoldable pub net_contains : Network → Ip → Bool
net_contains n x = contains_ip n.base n.ones x

-- IP.IsLoopback: 127.0.0.0/8, or ::1
unfoldable pub is_loopback : Ip → Bool
is_loopback (v4 n) = n / 2 ^ 24 == 127
is_loopback (v6 n) = n == 1

cidr_test :
    parse_cidr "10.1.2.3/8"
    ≡ some (record { ip = v4 0x0a010203; net = record { base = v4 0x0a000000; ones = 8 } })
unfolding parse_cidr cut unsigned parse_addr parse_ip4 split
cidr_test = refl
