-- ===== src/Firewall/Lines.antt =====
-- What the parsers of internal/firewall/ufw and internal/firewall/iptables make of a line, and
-- how the rules of a listing take their places.
use fyrwall.Base.{ℕ, suc, Option, none, some, List, ◌∷◌}
use fyrwall.Firewall.Rules.{Rule}

-- What a line comes to: it is passed over; it takes a priority and gives no rule; or a rule.
pub data Line : Type 0 where
  passed : Line
  unread : Line
  read : Rule → Line

abbrev pub line_of : Option Rule → Line
line_of none = unread
line_of (some r) = read r

-- the rules from a line on, at a place
abbrev pub and_line : ℕ → Line → (ℕ → List Rule) → List Rule
and_line priority passed rest = rest priority
and_line priority unread rest = rest (suc priority)
and_line priority (read r) rest = r ∷ rest (suc priority)
