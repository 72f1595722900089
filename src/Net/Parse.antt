-- ===== src/Net/Parse.antt =====
-- net.ParseIP and netip.ParseAddr: dotted IPv4, and IPv6 with an ellipsis and an IPv4 tail.
-- A zone ("%eth0") is refused, as both `ParseIP` and `ParseCIDR` refuse it.
use Prim.Native.Char.{Char, code}
use fyrwall.Base.{
  ℕ, zero, suc, ◌+◌, ◌-◌, ◌*◌, ◌/◌, ◌%◌, ◌^◌, String, ◌≡◌, refl, Bool, true, false, not, ◌&&◌, ◌||◌,
  Option, none, some, List, [], ◌∷◌, ◌++◌, leb, ltb, ◌==◌, if◌then◌else◌, length,
}
use fyrwall.Base.Text.{split, contains, unsigned, is_digit}

-- What the text spells: four bytes or sixteen.
pub data Raw : Type 0 where
  raw4 raw6 : ℕ → Raw

-- An `IP` value after `To4`: a sixteen-byte address of the form ::ffff:a.b.c.d is the IPv4 one.
pub data Ip : Type 0 where
  v4 v6 : ℕ → Ip

abbrev pub to4 : Raw → Ip
to4 (raw4 n) = v4 n
to4 (raw6 n) = if n / 2 ^ 32 == 0xffff then v4 (n % 2 ^ 32) else v6 n

-- one field of a dotted address: no leading zero, at most 255
octet : String → Option ℕ
octet String.[] = none
octet (String.◌∷◌ c String.[]) = unsigned (String.◌∷◌ c "")
octet (String.◌∷◌ c s) = if code c == b'0' then none else elim (unsigned (String.◌∷◌ c s)) [
  | none ↦ none
  | some n ↦ if leb n 255 then some n else none
]

octets : List String → Option (List ℕ)
octets [] = some []
octets (p ∷ ps) = elim (octet p) [
  | none ↦ none
  | some n ↦ elim (octets ps) [ none ↦ none | some ns ↦ some (n ∷ ns) ]
]

dotted : Option (List ℕ) → Option ℕ
dotted (some (a ∷ b ∷ c ∷ d ∷ [])) = some (((a * 256 + b) * 256 + c) * 256 + d)
dotted _ = none

unfoldable pub parse_ip4 : String → Option ℕ
unfolding octet octets dotted
parse_ip4 s = dotted (octets (split b'.' s))

hex_value : Char → Option ℕ
hex_value c =
    if is_digit c
    then some (code c - b'0')
    else if leb b'a' (code c) && leb (code c) b'f'
    then some (code c - b'a' + 10)
    else if leb b'A' (code c) && leb (code c) b'F'
    then some (code c - b'A' + 10)
    else none

pub record Group : Type 0 where
  width : ℕ
  value : ℕ
  rest : String

-- the hexadecimal digits in front of a text
hex_group : ℕ → ℕ → String → Group
hex_group off acc String.[] = record { width = off; value = acc; rest = "" }
hex_group off acc (String.◌∷◌ c s) = elim (hex_value c) [
  | none ↦ record { width = off; value = acc; rest = String.◌∷◌ c s }
  | some d ↦ hex_group (off + 1) (acc * 16 + d) s
]

-- Where the loop over the groups stands: the groups read, and how many stood before the "::".
pub record Scan : Type 0 where
  groups : List ℕ
  ellipsis : Option ℕ

-- the groups 0 behind the "::" fill the address up to eight
zeros : ℕ → List ℕ
zeros zero = []
zeros (suc n) = 0 ∷ zeros n

expand : ℕ → ℕ → List ℕ → List ℕ
expand zero missing gs = zeros missing ++ gs
expand (suc k) missing [] = zeros missing
expand (suc k) missing (g ∷ gs) = g ∷ expand k missing gs

assemble : ℕ → List ℕ → ℕ
assemble acc [] = acc
assemble acc (g ∷ gs) = assemble (acc * 65536 + g) gs

finish : Scan → Option ℕ
finish sc = elim sc.ellipsis [
  | none ↦ if length sc.groups == 8 then some (assemble 0 sc.groups) else none
  | some k ↦
      if ltb (length sc.groups) 8
      then some (assemble 0 (expand k (8 - length sc.groups) sc.groups))
      else none
]

-- a trailing dotted address takes the place of the last two groups
ip4_tail : Scan → String → Option ℕ
ip4_tail sc s = elim (parse_ip4 s) [
  | none ↦ none
  | some n ↦ elim sc.ellipsis [
    | none ↦
        if length sc.groups == 6
        then finish (record sc { groups = sc.groups ++ n / 65536 ∷ n % 65536 ∷ [] })
        else none
    | some k ↦
        if leb (length sc.groups) 6
        then finish (record sc { groups = sc.groups ++ n / 65536 ∷ n % 65536 ∷ [] })
        else none
  ]
]

abbrev is_at : ℕ → String → Bool
is_at b String.[] = false
is_at b (String.◌∷◌ c s) = code c == b

abbrev skip : String → String
skip String.[] = ""
skip (String.◌∷◌ c s) = s

abbrev is_nil : String → Bool
is_nil String.[] = true
is_nil (String.◌∷◌ c s) = false

has_gap : Option ℕ → Bool
has_gap none = false
has_gap (some n) = true

-- The loop `for i < 16`, at most eight rounds of two bytes each.
groups6 : ℕ → Scan → String → Option ℕ
unfolding hex_value hex_group zeros expand assemble finish ip4_tail has_gap
groups6 zero sc s = none
groups6 (suc k) sc s =
    let g = hex_group 0 0 s in
    let sc' : Scan = record sc { groups = sc.groups ++ g.value ∷ [] } in
    let after = skip g.rest in
    let at_gap : Scan = record sc' { ellipsis = some (length sc'.groups) } in
    let behind_gap = groups6 k at_gap (skip after) in
    let next = groups6 k sc' after in
    if g.width == 0 || ltb 4 g.width
    then none
    else if is_at b'.' g.rest
    then ip4_tail sc s
    else if is_nil g.rest
    then finish sc'
    else if is_at b':' g.rest && not (is_nil after)
    then (if is_at b':' after
        then (if has_gap sc.ellipsis
            then none
            else if is_nil (skip after)
            then finish at_gap
            else behind_gap)
        else next)
    else none

unfoldable pub parse_ip6 : String → Option ℕ
unfolding groups6
parse_ip6 s =
    if contains b'%' s
    then none
    else if is_at b':' s && is_at b':' (skip s)
    then (if is_nil (skip (skip s))
        then some 0
        else groups6 8 (record { groups = []; ellipsis = some 0 }) (skip (skip s)))
    else groups6 8 (record { groups = []; ellipsis = none }) s

-- netip.ParseAddr: the first '.', ':' or '%' decides
choose : String → String → Option Raw
choose s String.[] = none
choose s (String.◌∷◌ c t) =
    if code c == b'.'
    then (elim (parse_ip4 s) [ none ↦ none | some n ↦ some (raw4 n) ])
    else if code c == b':'
    then (elim (parse_ip6 s) [ none ↦ none | some n ↦ some (raw6 n) ])
    else if code c == b'%'
    then none
    else choose s t

unfoldable pub parse_addr : String → Option Raw
unfolding choose
parse_addr s = choose s s

-- net.ParseIP followed by the `To4` of its callers
unfoldable pub parse_ip : String → Option Ip
parse_ip s = elim (parse_addr s) [ none ↦ none | some r ↦ some (to4 r) ]

parse_ip4_test : parse_ip "127.0.0.1" ≡ some (v4 0x7f000001)
unfolding parse_ip parse_addr parse_ip4 split unsigned
parse_ip4_test = refl

leading_zero_test : parse_ip "127.0.0.01" ≡ none
unfolding parse_ip parse_addr parse_ip4 split unsigned
leading_zero_test = refl

parse_ip6_test : parse_ip "fe80::1:a" ≡ some (v6 0xfe80000000000000000000000001000a)
unfolding parse_ip parse_addr parse_ip6 contains
parse_ip6_test = refl

mapped_test : parse_ip "::ffff:10.0.0.1" ≡ some (v4 0x0a000001)
unfolding parse_ip parse_addr parse_ip6 parse_ip4 contains split unsigned
mapped_test = refl
