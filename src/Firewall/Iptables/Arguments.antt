-- ===== src/Firewall/Iptables/Arguments.antt =====
-- internal/firewall/iptables/iptables.go: the arguments of the command that adds or deletes a
-- rule.
pub mod Options
pub mod RoundTrip
use text.Mathlib.Text.{◌==◌}
use fyrwall.Base.{
  String, Bool, true, false, not, ◌&&◌, ◌||◌, ◌⊎◌, inl, inr, Option, none, some, List, [], ◌∷◌,
  ◌++◌, if◌then◌else◌,
}
use fyrwall.Base.Text.{contains, join, replace_all}
use fyrwall.Firewall.Rules.{Rule}

-- the errors of `ruleToArgs`
pub data ArgsError : Type 0 where
  unsupported_op : String → ArgsError
  unsupported_direction : String → ArgsError
  unsupported_action : String → ArgsError

-- `directionToChain`
unfoldable pub direction_to_chain : String → String
direction_to_chain d =
    if d == "in"
    then "INPUT"
    else if d == "out"
    then "OUTPUT"
    else if d == "forward"
    then "FORWARD"
    else ""

-- `normalizePortArg`
unfoldable pub normalize_port_arg : String → String
normalize_port_arg p = replace_all b'-' ":" p

-- the two branches of `appendPortMatch`, with the port as iptables writes it
abbrev pub port_option : String → String → String → List String
port_option flag multi_flag q =
    if contains b',' q then "-m" ∷ "multiport" ∷ multi_flag ∷ q ∷ [] else flag ∷ q ∷ []

-- `appendPortMatch`: what it appends
unfoldable pub port_match : String → String → List String
unfolding normalize_port_arg
port_match direction port =
    if direction == "source"
    then port_option "--sport" "--sports" (normalize_port_arg port)
    else port_option "--dport" "--dports" (normalize_port_arg port)

-- what is appended where the text is set
abbrev pub option_of : String → List String → List String
option_of text option = if text == "" then [] else option

-- likewise for an address, which may also be "any"
abbrev pub address_option : String → String → List String
address_option flag a = if not (a == "") && not (a == "any") then flag ∷ a ∷ [] else []

abbrev pub protocol_option : String → List String
protocol_option p =
    if not (p == "any") && not (p == "icmp")
    then "-p" ∷ p ∷ []
    else if p == "icmp"
    then "-p" ∷ "icmp" ∷ []
    else []

-- the text after `--comment`
abbrev pub comment_text : Rule → String
comment_text r =
    if r.comment == ""
    then join "" ("FYRWALL:RULE:" ∷ r.id ∷ [])
    else join "" ("FYRWALL:RULE:" ∷ r.id ∷ " " ∷ r.comment ∷ [])

-- the arguments between the chain and the target
unfoldable pub match_args : Rule → List String
unfolding port_match
match_args r =
    protocol_option r.protocol
    ++ (address_option "-s" r.source
        ++ (address_option "-d" r.destination
            ++ (option_of r.source_port (port_match "source" r.source_port)
                ++ (option_of r.destination_port (port_match "destination" r.destination_port)
                    ++ (option_of r.interface_in ("-i" ∷ r.interface_in ∷ [])
                        ++ (option_of r.interface_out ("-o" ∷ r.interface_out ∷ [])
                            ++ (option_of r.state ("-m" ∷ "conntrack" ∷ "--ctstate" ∷ r.state ∷ [])
                                ++ ("-m" ∷ "comment" ∷ "--comment" ∷ comment_text r ∷ []))))))))

-- the `switch` over the action: the target, or none
unfoldable pub target_of : String → Option String
target_of action =
    if action == "allow"
    then some "ACCEPT"
    else if action == "reject"
    then some "REJECT"
    else if action == "deny" || action == "drop"
    then some "DROP"
    else if action == "log"
    then some "LOG"
    else none

abbrev pub args_for : Rule → String → String → Option String → ArgsError ⊎ List String
args_for r op chain none = inl (unsupported_action r.action)
args_for r op chain (some target) = inr (
    (if op == "add" then "-I" ∷ chain ∷ "1" ∷ [] else "-D" ∷ chain ∷ [])
    ++ (match_args r ++ ("-j" ∷ target ∷ [])))

-- `ruleToArgs`
unfoldable pub rule_to_args : Rule → String → ArgsError ⊎ List String
unfolding direction_to_chain match_args target_of
rule_to_args r op =
    let chain = direction_to_chain r.direction in
    if not (op == "add") && not (op == "delete")
    then inl (unsupported_op op)
    else if chain == ""
    then inl (unsupported_direction r.direction)
    else args_for r op chain (target_of r.action)
