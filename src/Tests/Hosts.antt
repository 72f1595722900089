-- ===== src/Tests/Hosts.antt =====
-- Hosts for the tests of the backends: one rule set of each family, on or off.
use text.Mathlib.Text.{◌==◌}
use fyrwall.Base.{String, ◌≡◌, ◌≢◌, refl, Bool, true, false, none, some, if◌then◌else◌}
use fyrwall.Base.Text.Laws.{ne_of_test}
use fyrwall.Firewall.Shell.{Output, Shell}
use fyrwall.Firewall.Iptables.Backend.{Tools}

abbrev pub shown : Bool → String
shown b = if b then "on" else "off"

-- adding a rule turns the first off and fails
abbrev pub host_run : String → Bool × Bool → Output × (Bool × Bool)
host_run bin (a, b) =
    if bin == "save4"
    then ((none, shown a, ""), (a, b))
    else if bin == "save6"
    then ((none, shown b, ""), (a, b))
    else ((some "exit status 1", "", "bad"), (false, b))

abbrev pub host_input : String → String → Bool × Bool → Output × (Bool × Bool)
host_input bin text (a, b) =
    if bin == "restore4"
    then ((none, "", ""), (text == "on", b))
    else ((none, "", ""), (a, text == "on"))

abbrev pub two_families : Shell (Bool × Bool)
two_families = record {
  run = λ bin args h. host_run bin h;
  run_input = host_input;
  new_id = λ h. "id";
  rule_ids = λ h n. "r";
  now = λ h. 0;
  hash = λ s. s;
  quote = λ s. s;
}

abbrev pub paths : Tools
paths = record {
  iptables = "iptables";
  iptables_save = "save4";
  iptables_restore = "restore4";
  ip6tables_save = "save6";
  ip6tables_restore = "restore6";
  version = "1.8";
}

abbrev pub v4 : Bool × Bool → Bool
v4 h = h.0

abbrev pub v6 : Bool × Bool → Bool
v6 h = h.1

-- the dump of a family
abbrev pub IsShown : String → Bool → Type 0
IsShown s b = s ≡ shown b

pub shown-some : (b : Bool) → shown b ≢ ""
shown-some true = ne_of_test "on" "" refl
shown-some false = ne_of_test "off" "" refl

pub shown-back : (b : Bool) → (shown b == "on") ≡ b
shown-back true = refl
shown-back false = refl

-- where ufw knows only how to show its state
abbrev pub ufw_run : String → Bool × Bool → Output × (Bool × Bool)
ufw_run bin (a, b) =
    if bin == "iptables-save"
    then ((none, shown a, ""), (a, b))
    else if bin == "ip6tables-save"
    then ((none, shown b, ""), (a, b))
    else ((none, "Status: active", ""), (a, b))

abbrev pub ufw_input : String → String → Bool × Bool → Output × (Bool × Bool)
ufw_input bin text (a, b) =
    if bin == "iptables-restore"
    then ((none, "", ""), (text == "on", b))
    else ((none, "", ""), (a, text == "on"))
