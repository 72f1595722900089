-- ===== src/Tests/Iptables.antt =====
-- The parser, the arguments and the backend of iptables, at concrete inputs.
use fyrwall.Base.{
  ℕ, String, ◌≡◌, ◌↔◌, refl, Bool, true, false, inr, Option, none, some, List, [], ◌∷◌,
}
use fyrwall.Base.Text.{trim_space}
use fyrwall.Base.Text.Fold.{has_prefix}
use fyrwall.Firewall.Lines.{read}
use fyrwall.Firewall.Shell.{Shell}
use fyrwall.Firewall.Manager.State.{Manager}
use fyrwall.Firewall.Iptables.Parser.{parse, parse_lines, parse_line, parse_tokens}
use fyrwall.Firewall.Iptables.Parser.Sound.{AreListed, parse-AreListed}
use fyrwall.Firewall.Iptables.Arguments.{rule_to_args}
use fyrwall.Firewall.Iptables.Arguments.RoundTrip.{rule_read, parse_tokens-rule_to_args}
use fyrwall.Firewall.Iptables.Backend.{list_rules, validate, apply, verify, apply_actions}
use fyrwall.Firewall.Iptables.Backend.Drift.{dumped, left, verify-apply_iff}
use fyrwall.Tests.Hosts.{two_families, paths}
use fyrwall.Tests.Open.{firewall_code}
use fyrwall.Tests.Data.{allow_ssh, add, txn, started}

abbrev ids : ℕ → String
ids n = "r"

parse-AreListed_example :
    AreListed ids 0 "ipv4" 0 (parse ids 0 "ipv4" "*filter\n-A INPUT -s 10.0.0.1 -j ACCEPT\n")
parse-AreListed_example = parse-AreListed ids 0 "ipv4" "*filter\n-A INPUT -s 10.0.0.1 -j ACCEPT\n"

abbrev ssh_args : List String
ssh_args =
    "-I" ∷ "INPUT" ∷ "1" ∷ "-p" ∷ "tcp" ∷ "--dport" ∷ "22" ∷ "-m" ∷ "comment" ∷ "--comment"
    ∷ "FYRWALL:RULE:a" ∷ "-j" ∷ "ACCEPT" ∷ []

ssh_is_written : rule_to_args allow_ssh "add" ≡ inr ssh_args
unfolding rule_to_args firewall_code
ssh_is_written = refl

parse_tokens-rule_to_args_example :
    parse_tokens ids 0 "ipv4" 3 "line" ssh_args ≡ read (rule_read ids 0 "ipv4" 3 "line" allow_ssh)
parse_tokens-rule_to_args_example =
    parse_tokens-rule_to_args ids 0 "ipv4" 3 "line" allow_ssh "add" ssh_args ssh_is_written

abbrev over_host : Manager (Bool × Bool)
over_host = record {
  snapshots = [];
  ownership = started.ownership;
  last_hash = "";
  last_read = 0;
  last_write = 0;
  last_snapshot = none;
  has_audit = true;
  has_notify = true;
  audits = [];
  issues = [];
  host = (true, false);
}

-- the same host, whose every command fails
abbrev broken_shell : Shell (Bool × Bool)
broken_shell = record two_families { run = λ bin args h. ((some "exit status 4", "", ""), h) }

empty_applies : (apply two_families paths (txn []) (true, false)).1 ≡ none
unfolding apply apply_actions
empty_applies = refl

verify-apply_iff_example :
    ((verify two_families paths
        (apply two_families paths (txn []) (true, false)).0.state_hash
        (false, false)).0.match
      ≡ true)
    ↔ ((◌≡◌ {A = Option String} none none)
        × ("off" ≡ dumped two_families paths (left two_families paths (txn []) (true, false))))
verify-apply_iff_example =
    verify-apply_iff two_families paths (txn []) (true, false) (false, false) empty_applies (λ e. e)

ssh_is_valid : (validate two_families paths (txn (add allow_ssh ∷ [])) (true, false)).0.valid ≡ true
unfolding firewall_code list_rules validate trim_space parse parse_lines parse_line has_prefix
ssh_is_valid = refl
