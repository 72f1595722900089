-- ===== src/Firewall/Iptables/Parser.antt =====
-- internal/firewall/iptables/parser.go: the rules in the output of iptables-save.
pub mod Sound
pub mod Tokens
use Prim.Native.Char.{Char, code}
use text.Mathlib.Text.{◌==◌}
use fyrwall.Base.{
  ℕ, suc, String, Bool, true, false, not, ◌&&◌, ◌||◌, Option, none, some, List, [], ◌∷◌, map,
  length, ltb, ◌==◌ as nat_eq, if◌then◌else◌,
}
use fyrwall.Base.Int.{pos}
use fyrwall.Base.Text.{Parsed, atoi, itoa, cut, split, join, contains, trim_space}
use fyrwall.Base.Text.Fold.{upper_is, lower_is, has_prefix, trim_prefix, flush}
use fyrwall.Firewall.Rules.{Rule}
use fyrwall.Firewall.Lines.{Line, passed, unread, read, line_of, and_line}

-- `tokenize`, with the variables of its loop: `cur` is the token that is being written
unfoldable pub tokens_from : Bool → String → String → List String
tokens_from in_quote cur String.[] = flush cur []
tokens_from in_quote cur (String.◌∷◌ c s) =
    let turned = tokens_from (not in_quote) cur s in
    let ended = flush cur (tokens_from in_quote "" s) in
    let written = tokens_from in_quote (Prim.Native.String.◌++◌ cur (String.◌∷◌ c "")) s in
    if nat_eq (code c) b'\''
    then turned
    else if nat_eq (code c) b' ' && not in_quote
    then ended
    else written

unfoldable pub tokenize : String → List String
unfolding tokens_from
tokenize line = tokens_from false "" line

unfoldable pub proto_of : String → String
proto_of p =
    if lower_is p "tcp"
    then "tcp"
    else if lower_is p "udp"
    then "udp"
    else if lower_is p "icmp" || lower_is p "ipv6-icmp" || lower_is p "icmpv6"
    then "icmp"
    else if lower_is p "all"
    then "any"
    else "custom"

abbrev range_text : String → Option (String × String) → String
range_text p none = p
range_text p (some (a, b)) =
    if (atoi a).ok && (atoi b).ok
    then join "" (itoa (atoi a).value ∷ "-" ∷ itoa (atoi b).value ∷ [])
    else p

-- `normalizePort`
unfoldable pub normalize_port : String → String
normalize_port p = range_text p (cut b':' p)

-- `normalizeMultiPort`
unfoldable pub normalize_multi_port : String → String
unfolding normalize_port
normalize_multi_port p = join "," (map normalize_port (split b',' p))

-- `chainToDirection`
unfoldable pub chain_to_direction : String → String
chain_to_direction chain =
    if upper_is chain "INPUT"
    then "in"
    else if upper_is chain "OUTPUT"
    then "out"
    else if upper_is chain "FORWARD"
    then "forward"
    else ""

-- the variables of the loop over the options
pub record Reading : Type 0 where
  pub rule : Rule
  pub target : String

-- The cases of the `switch` over an option. Each consumes the token behind it.
pub data Case : Type 0 where
  protocol source destination source_port destination_port source_ports destination_ports : Case
  in_interface out_interface state comment jump module_name : Case
  other : Case

unfoldable pub case_of : String → Case
case_of o =
    if o == "-p" || o == "--protocol"
    then protocol
    else if o == "-s" || o == "--source" || o == "--src"
    then source
    else if o == "-d" || o == "--destination" || o == "--dst"
    then destination
    else if o == "--sport" || o == "--source-port"
    then source_port
    else if o == "--dport" || o == "--destination-port"
    then destination_port
    else if o == "--sports" || o == "--source-ports"
    then source_ports
    else if o == "--dports" || o == "--destination-ports"
    then destination_ports
    else if o == "-i" || o == "--in-interface"
    then in_interface
    else if o == "-o" || o == "--out-interface"
    then out_interface
    else if o == "--ctstate"
    then state
    else if o == "--comment"
    then comment
    else if o == "-j" || o == "--jump"
    then jump
    else if o == "-m"
    then module_name
    else other

abbrev pub takes : Case → Bool
takes other = false
takes _ = true

-- what a case does with the token behind the option
abbrev pub assign : Case → String → Reading → Reading
assign protocol v st = record st { rule = record st.rule { protocol = proto_of v } }
assign source v st = record st { rule = record st.rule { source = v } }
assign destination v st = record st { rule = record st.rule { destination = v } }
assign source_port v st = record st { rule = record st.rule { source_port = normalize_port v } }
assign destination_port v st = record st {
  rule = record st.rule { destination_port = normalize_port v };
}
assign source_ports v st = record st {
  rule = record st.rule { source_port = normalize_multi_port v };
}
assign destination_ports v st = record st {
  rule = record st.rule { destination_port = normalize_multi_port v };
}
assign in_interface v st = record st { rule = record st.rule { interface_in = v } }
assign out_interface v st = record st { rule = record st.rule { interface_out = v } }
assign state v st = record st { rule = record st.rule { state = v } }
assign comment v st = record st {
  rule = record st.rule { comment = trim_prefix v "FYRWALL:RULE:" };
}
assign jump v st = record st { target = v }
assign module_name v st = st
assign other v st = st

abbrev pub takes_value : String → Bool
takes_value o = takes (case_of o)

abbrev pub set_option : String → String → Reading → Reading
set_option o v st = assign (case_of o) v st

-- the loop over the options; the last token has none behind it
unfoldable pub read_options : Reading → List String → Reading
unfolding case_of
read_options st [] = st
read_options st (o ∷ []) = st
read_options st (o ∷ v ∷ rest) =
    let taken = read_options (set_option o v st) rest in
    let skipped = read_options st (v ∷ rest) in if takes_value o then taken else skipped

-- the `switch` over the target: none for a target that is no verdict
unfoldable pub action_of : String → Option String
action_of target =
    if target == "ACCEPT"
    then some "allow"
    else if target == "DROP"
    then some "drop"
    else if target == "REJECT"
    then some "reject"
    else if target == "LOG"
    then some "log"
    else none

abbrev pub with_action : Rule → Option String → Option Rule
with_action r none = none
with_action r (some a) = some (record r { action = a })

-- the rule that the loop starts from
abbrev pub blank : String → ℕ → String → String → ℕ → String → Rule
blank id now family direction priority line = record {
  id = id;
  backend_id = "";
  family = family;
  direction = direction;
  action = "";
  protocol = "";
  source = "";
  source_port = "";
  destination = "";
  destination_port = "";
  interface_in = "";
  interface_out = "";
  state = "";
  comment = "";
  enabled = true;
  priority = pos priority;
  backend = "iptables";
  raw_reference = line;
  created_by = "";
  created_at = now;
  updated_at = now;
}

abbrev pub line_in : Rule → List String → Line
line_in r options =
    let st = read_options (record { rule = r; target = "" }) options in
    line_of (with_action st.rule (action_of st.target))

module _ (uuid : ℕ → String) (now : ℕ) (family : String) where
  -- the line with its tokens: at least three
  unfoldable pub parse_tokens : ℕ → String → List String → Line
  unfolding chain_to_direction read_options action_of
  parse_tokens priority line (a ∷ chain ∷ o ∷ rest) =
      let dir = chain_to_direction chain in
      if dir == ""
      then passed
      else line_in (blank (uuid priority) now family dir priority line) (o ∷ rest)
  parse_tokens priority line _ = passed

  unfoldable pub parse_line : ℕ → String → Line
  unfolding parse_tokens tokenize
  parse_line priority raw =
      let line = trim_space raw in
      if has_prefix line "-A " then parse_tokens priority line (tokenize line) else passed

  unfoldable pub parse_lines : List String → ℕ → List Rule
  unfolding parse_line
  parse_lines [] priority = []
  parse_lines (raw ∷ raws) priority = and_line priority (parse_line priority raw) (parse_lines raws)

  -- `parse`
  unfoldable pub parse : String → List Rule
  unfolding parse_lines
  parse content = parse_lines (split 10 content) 0
