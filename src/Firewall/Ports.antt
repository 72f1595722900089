-- ===== src/Firewall/Ports.antt =====
-- The port fields of internal/firewall/conflicts.go: a port, a range "lo-hi" or "lo:hi", or
-- nothing for every port.
pub mod Semantics
use text.Mathlib.Text.{◌==◌}
use fyrwall.Base.{
  String, ◌≡◌, refl, Bool, true, false, not, ◌&&◌, ◌||◌, Option, none, some, if◌then◌else◌,
}
use fyrwall.Base.Int.{ℤ, pos, lebℤ}
use fyrwall.Base.Text.{Parsed, atoi, cut, replace_all}

-- the three results of `portRange`
pub record PortRange : Type 0 where
  pub lo : ℤ
  pub hi : ℤ
  pub ok : Bool

-- both branches of `if i := strings.IndexByte(p, '-'); i >= 0`
abbrev pub range_of : String → Option (String × String) → PortRange
range_of p (some (a, b)) = record {
  lo = (atoi a).value;
  hi = (atoi b).value;
  ok = (atoi a).ok && (atoi b).ok;
}
range_of p none =
    if (atoi p).ok
    then record { lo = (atoi p).value; hi = (atoi p).value; ok = true }
    else record { lo = pos 0; hi = pos 0; ok = false }

unfoldable pub port_range : String → PortRange
port_range p = let q = replace_all b':' "-" p in range_of q (cut b'-' q)

unfoldable pub normalize_empty : String → String
normalize_empty s = if s == "any" || s == "*" || s == "0.0.0.0/0" || s == "::/0" then "" else s

unfoldable pub port_subset : String → String → Bool
port_subset sub super =
    let a = normalize_empty sub in
    let b = normalize_empty super in
    if b == ""
    then true
    else if a == ""
    then false
    else if a == b
    then true
    else if not (port_range a).ok || not (port_range b).ok
    then false
    else lebℤ (port_range b).lo (port_range a).lo && lebℤ (port_range a).hi (port_range b).hi

unfoldable pub port_intersects : String → String → Bool
port_intersects p q =
    let a = normalize_empty p in
    let b = normalize_empty q in
    if a == "" || b == ""
    then true
    else lebℤ (port_range a).lo (port_range b).hi && lebℤ (port_range b).lo (port_range a).hi

port_range_test : port_range "80:90" ≡ record { lo = pos 80; hi = pos 90; ok = true }
unfolding port_range cut replace_all atoi
port_range_test = refl
