-- ===== src/Firewall/Conflicts.antt =====
-- internal/firewall/conflicts.go: the analysis of a rule list with a candidate rule.
pub mod Order
pub mod Dedupe
pub mod Sorted
pub mod Keys
pub mod Critical
pub mod Lockout
pub mod Pairs
use text.Mathlib.Text.{◌==◌}
use fyrwall.Base.{
  String, Bool, true, false, not, ◌&&◌, ◌||◌, Option, none, some, List, [], ◌∷◌, ◌++◌, filter,
  if◌then◌else◌,
}
use fyrwall.Base.Text.{join, itoa}
use fyrwall.Firewall.Rules.{Rule, Conflict}
use fyrwall.Firewall.Ports.{port_intersects}
use fyrwall.Firewall.Addresses.{addr_covers, addr_overlap}
use fyrwall.Firewall.Matching.{same_rule, same_match, shadows}
use Order.{sort_by_priority}
use Dedupe.{dedupe}

unfoldable pub duplicate : Rule → Rule → Conflict
duplicate a b = record {
  code = "DUPLICATE_RULE";
  severity = "WARNING";
  summary = join "" ("Rules " ∷ a.id ∷ " and " ∷ b.id ∷ " are identical" ∷ []);
  details = "";
  rule_ids = a.id ∷ b.id ∷ [];
  remediation = "Remove one of the duplicate rules.";
}

unfoldable pub overlap : Rule → Rule → Conflict
overlap a b = record {
  code = "ALLOW_DENY_OVERLAP";
  severity = "HIGH";
  summary = join "" (
      "Rules " ∷ a.id ∷ " (" ∷ a.action ∷ ") and " ∷ b.id ∷ " (" ∷ b.action
      ∷ ") match the same traffic with different actions" ∷ []);
  details = "";
  rule_ids = a.id ∷ b.id ∷ [];
  remediation = "Reconcile the two rules so the intended action wins.";
}

unfoldable pub shadowed : Rule → Rule → Conflict
shadowed a b = record {
  code = "RULE_SHADOWED";
  severity = "WARNING";
  summary = join "" ("Rule " ∷ b.id ∷ " is shadowed by earlier rule " ∷ a.id ∷ []);
  details = join "" (
      "Rule "
      ∷ b.id
      ∷ " (priority "
      ∷ itoa b.priority
      ∷ ", "
      ∷ b.action
      ∷ ") is a subset of rule "
      ∷ a.id
      ∷ " (priority "
      ∷ itoa a.priority
      ∷ ", "
      ∷ a.action
      ∷ ") which is evaluated first"
      ∷ []);
  rule_ids = a.id ∷ b.id ∷ [];
  remediation = "Reorder or narrow the shadowed rule if it was meant to be reachable.";
}

unfoldable pub pairwise : Rule → Rule → List Conflict
pairwise a b =
    if a.id == b.id
    then []
    else if same_rule a b
    then duplicate a b ∷ []
    else if same_match a b && not (a.action == b.action)
    then overlap a b ∷ []
    else if shadows a b
    then shadowed a b ∷ []
    else []

-- the inner loop, over the rules behind `a`
unfoldable pub against : Rule → List Rule → List Conflict
against a [] = []
against a (b ∷ bs) = pairwise a b ++ against a bs

unfoldable pub all_pairs : List Rule → List Conflict
all_pairs [] = []
all_pairs (a ∷ bs) = against a bs ++ all_pairs bs

unfoldable pub management_lockout : Rule → Conflict
management_lockout c = record {
  code = "MANAGEMENT_PORT_LOCKOUT";
  severity = "CRITICAL";
  summary = "Deny rule matches loopback traffic and would sever local UI access";
  details = "";
  rule_ids = c.id ∷ [];
  remediation =
      "Exclude 127.0.0.0/8 from this rule or add an explicit allow for the management interface first.";
}

unfoldable pub ssh_lockout : Rule → Rule → Conflict
ssh_lockout c r = record {
  code = "SSH_LOCKOUT_RISK";
  severity = "CRITICAL";
  summary = join "" (
      "Deny rule " ∷ c.id ∷ " overlaps allow rule " ∷ r.id ∷ " covering the management/SSH path"
      ∷ []);
  details = "";
  rule_ids = c.id ∷ r.id ∷ [];
  remediation =
      "Ensure the explicit allow rule is evaluated before this deny, or add a scoped exception.";
}

-- an inbound allow rule whose ports and source the candidate meets
unfoldable pub cuts_off : Rule → Rule → Bool
cuts_off c r =
    r.action == "allow"
    && r.direction == "in"
    && port_intersects c.destination_port r.destination_port
    && addr_overlap c.source r.source

unfoldable pub ssh_lockouts : Rule → List Rule → List Conflict
ssh_lockouts c [] = []
ssh_lockouts c (r ∷ rs) =
    if cuts_off c r then ssh_lockout c r ∷ ssh_lockouts c rs else ssh_lockouts c rs

unfoldable pub covers_loopback : Rule → Bool
covers_loopback c = addr_covers c.source "127.0.0.1" || addr_covers c.destination "127.0.0.1"

unfoldable pub is_inbound_block : Rule → Bool
is_inbound_block c =
    c.direction == "in" && (c.action == "deny" || c.action == "reject" || c.action == "drop")

unfoldable pub lockout_checks : List Rule → Rule → List Conflict
lockout_checks existing c =
    if c.action == "allow" && c.direction == "in"
    then []
    else if not (is_inbound_block c)
    then []
    else (if covers_loopback c then management_lockout c ∷ [] else []) ++ ssh_lockouts c existing

-- `append(rules, *candidate)` where there is one
abbrev pub with_candidate : List Rule → Option Rule → List Rule
with_candidate existing none = existing
with_candidate existing (some c) = existing ++ c ∷ []

abbrev pub candidate_checks : List Rule → Option Rule → List Conflict
candidate_checks existing none = []
candidate_checks existing (some c) = lockout_checks existing c

unfoldable pub analyze_conflicts : List Rule → Option Rule → List Conflict
analyze_conflicts existing candidate = dedupe (
    all_pairs (sort_by_priority (filter (λ r. r.enabled) (with_candidate existing candidate)))
    ++ candidate_checks existing candidate)
