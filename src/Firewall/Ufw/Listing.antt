-- ===== src/Firewall/Ufw/Listing.antt =====
-- internal/firewall/ufw/ufw.go: the parsers of `ufw status numbered` and `ufw status verbose`.
pub mod Ports
use Prim.Native.Char.{Char, code}
use text.Mathlib.Text.{◌==◌}
use fyrwall.Base.{
  ℕ, suc, String, ◌≡◌, refl, sym, ap, subst, ◌∙◌, Bool, true, false, not, ◌&&◌, ◌||◌, Option, none,
  some, List, [], ◌∷◌, ◌++◌, arith, All, ◌==◌ as nat_eq, if◌then◌else◌, Bool-cases, inl, inr,
}
use fyrwall.Base.Int.{pos}
use fyrwall.Base.Text.{Parsed, atoi, itoa, cut, split, join, contains, trim_space}
use fyrwall.Base.Text.Fold.{
  upper_is, upper_begins, lower_is, has_prefix, trim_prefix, fields, equal_fold,
}
use fyrwall.Firewall.Lines.{Line, passed, unread, read, and_line}
use fyrwall.Firewall.Rules.{Rule, DefaultPolicy, FirewallStatus}

abbrev pub unless_any : String → String
unless_any port = if port == "any" || port == "Anywhere" then "" else port

-- `splitPortSpec`: the protocol and the port, which the source returns twice
abbrev pub protocol_of : String → String
protocol_of p = if lower_is p "tcp" then "tcp" else if lower_is p "udp" then "udp" else "custom"

abbrev pub split_at_slash : String → Option (String × String) → String × String × String
split_at_slash spec none = ("any", unless_any spec, unless_any spec)
split_at_slash spec (some (port, p)) = (protocol_of p, unless_any port, unless_any port)

unfoldable pub split_port_spec : String → String × String × String
split_port_spec spec = split_at_slash spec (cut b'/' spec)

unfoldable pub is_verb : String → Bool
is_verb f = upper_is f "ALLOW" || upper_is f "DENY" || upper_is f "REJECT" || upper_is f "LIMIT"

-- the first verb among the fields, with the fields behind it
unfoldable pub find_verb : List String → Option (String × List String)
unfolding is_verb
find_verb [] = none
find_verb (f ∷ fs) = let rest = find_verb fs in if is_verb f then some (f, fs) else rest

-- the action, and the comment of a limit
abbrev pub with_verb : String → Rule → Rule
with_verb v r =
    if upper_is v "ALLOW"
    then record r { action = "allow" }
    else if upper_is v "DENY"
    then record r { action = "deny" }
    else if upper_is v "REJECT"
    then record r { action = "reject" }
    else if upper_is v "LIMIT"
    then record r { action = "allow"; comment = "ufw limit" }
    else r

abbrev pub direction_of : String → String
direction_of tok =
    if upper_begins tok "IN"
    then "in"
    else if upper_begins tok "OUT"
    then "out"
    else if upper_begins tok "FWD" || upper_begins tok "ROUTE"
    then "forward"
    else "in"

-- one token behind the direction
unfoldable pub read_token : String → Rule → Rule
read_token tok r =
    if tok == "(v6)"
    then record r { family = "ipv6" }
    else if not (tok == "Anywhere") && not (has_prefix tok "(") && r.source == ""
    then record r { source = tok }
    else r

unfoldable pub read_tokens : List String → Rule → Rule
unfolding read_token
read_tokens [] r = r
read_tokens (t ∷ ts) r = read_tokens ts (read_token t r)

-- a text without its last character, where that is a closing parenthesis
unfoldable pub before_close : String → Option String
before_close String.[] = none
before_close (String.◌∷◌ c String.[]) = if nat_eq (code c) b')' then some "" else none
before_close (String.◌∷◌ c (String.◌∷◌ d s)) = elim (before_close (String.◌∷◌ d s)) [
  | none ↦ none
  | some t ↦ some (String.◌∷◌ c t)
]

abbrev pub with_comment : Rule → Option String → Rule
with_comment r none = r
with_comment r (some t) = record r { comment = t }

-- the comment in parentheses at the end of the line, from the first opening parenthesis
abbrev pub comment_in : Rule → Option (String × String) → Rule
comment_in r none = r
comment_in r (some (a, b)) = with_comment r (before_close b)

abbrev pub default_family : Rule → Rule
default_family r = if r.family == "" then record r { family = "ipv4" } else r

module _ (uuid : ℕ → String) (now : ℕ) where
  abbrev pub numbered : ℕ → Parsed → Rule
  numbered priority n = record {
    id = uuid priority;
    backend_id = itoa n.value;
    family = "";
    direction = "";
    action = "";
    protocol = "";
    source = "";
    source_port = "";
    destination = "";
    destination_port = "";
    interface_in = "";
    interface_out = "";
    state = "";
    comment = "";
    enabled = true;
    priority = pos priority;
    backend = "ufw";
    raw_reference = "";
    created_by = "";
    created_at = now;
    updated_at = now;
  }

  abbrev pub rule_with : Rule → String → Option (String × List String) → Line
  rule_with r spec none = unread
  rule_with r spec (some (v, [])) = unread
  rule_with r spec (some (v, tok ∷ rest)) =
      let (protocol, source_port, destination_port) = split_port_spec spec in
      let r1 = record r {
        protocol = protocol;
        source_port = source_port;
        destination_port = destination_port;
      } in
      let r2 = record (with_verb v r1) { direction = direction_of tok } in
      read (default_family (comment_in (read_tokens rest r2) (cut b'(' (join " " rest))))

  abbrev pub with_fields : ℕ → Parsed → List String → Line
  with_fields priority n (spec ∷ b ∷ c ∷ rest) =
      rule_with (numbered priority n) spec (find_verb (b ∷ c ∷ rest))
  with_fields priority n _ = passed

  -- the text between the brackets, and the text behind them
  abbrev pub with_number : ℕ → Option (String × String) → Line
  with_number priority none = passed
  with_number priority (some (String.[], b)) = passed
  with_number priority (some (String.◌∷◌ c a, b)) =
      let n = atoi (trim_space a) in if n.ok then with_fields priority n (fields b) else passed

  -- one line of `ufw status numbered`
  unfoldable pub parse_numbered_line : ℕ → String → Line
  unfolding split_port_spec find_verb read_tokens before_close
  parse_numbered_line priority raw =
      let line = trim_space raw in
      if has_prefix line "[" then with_number priority (cut b']' line) else passed

  unfoldable pub parse_numbered_lines : List String → ℕ → List Rule
  unfolding parse_numbered_line
  parse_numbered_lines [] priority = []
  parse_numbered_lines (raw ∷ raws) priority =
      and_line priority (parse_numbered_line priority raw) (parse_numbered_lines raws)

  -- `parseStatusNumbered`, which makes no error
  unfoldable pub parse_status_numbered : String → List Rule
  unfolding parse_numbered_lines
  parse_status_numbered out = parse_numbered_lines (split 10 out) 0

-- strings.Trim(s, "()"), from the left
abbrev is_paren : ℕ → Bool
is_paren n = nat_eq n b'(' || nat_eq n b')'

unfoldable pub trim_parens_left : String → String
trim_parens_left String.[] = ""
trim_parens_left (String.◌∷◌ c s) = if is_paren (code c) then trim_parens_left s else String.◌∷◌ c s

abbrev keep_paren : Char → String → String
keep_paren c String.[] = if is_paren (code c) then "" else String.◌∷◌ c ""
keep_paren c (String.◌∷◌ d s) = String.◌∷◌ c (String.◌∷◌ d s)

unfoldable pub trim_parens_right : String → String
trim_parens_right String.[] = ""
trim_parens_right (String.◌∷◌ c s) = keep_paren c (trim_parens_right s)

-- the action and the label of one part of the line of defaults
abbrev labelled : String → Option (String × String) → String × String
labelled part none = (part, "")
labelled part (some (a, b)) = (trim_space a, trim_parens_right (trim_parens_left b))

abbrev labelled_direction : String → String
labelled_direction label =
    if has_prefix label "incoming"
    then "in"
    else if has_prefix label "outgoing"
    then "out"
    else if has_prefix label "routed"
    then "forward"
    else ""

abbrev policy_of : String × String → List DefaultPolicy → List DefaultPolicy
policy_of (action, label) rest =
    if labelled_direction label == ""
    then rest
    else record {
      direction = labelled_direction label;
      action = if equal_fold action "allow" then "allow" else "deny";
    }
      ∷ rest

unfoldable pub policies_of : List String → List DefaultPolicy
policies_of [] = []
policies_of (raw ∷ parts) =
    let part = trim_space raw in policy_of (labelled part (cut b'(' part)) (policies_of parts)

-- `parseDefaultLine`
unfoldable pub parse_default_line : String → List DefaultPolicy
unfolding policies_of trim_parens_left trim_parens_right
parse_default_line line = policies_of (split b',' (trim_space (trim_prefix line "Default:")))

-- the loop of `parseStatusVerbose`
unfoldable pub status_lines : List String → FirewallStatus → FirewallStatus
unfolding parse_default_line
status_lines [] st = st
status_lines (raw ∷ raws) st =
    let line = trim_space raw in
    status_lines raws (
      if has_prefix line "Status:"
      then record st { enabled = equal_fold (trim_space (trim_prefix line "Status:")) "active" }
      else if has_prefix line "Default:"
      then record st { default_policies = parse_default_line line }
      else st)

-- `parseStatusVerbose`
unfoldable pub parse_status_verbose : ℕ → String → FirewallStatus
unfolding status_lines
parse_status_verbose now out = status_lines (split 10 out) (record {
  backend = "ufw";
  enabled = false;
  default_policies = [];
  rule_count = 0;
  ipv4_ready = false;
  ipv6_ready = false;
  raw_version = "";
  checked_at = now;
})
