-- ===== src/Tests/Data.antt =====
-- Rules, transactions and a backend for the tests.
use fyrwall.Base.{String, ◌≡◌, refl, Bool, true, false, Option, none, some, List, []}
use fyrwall.Base.Int.{pos}
use fyrwall.Firewall.Rules.{Rule, Snapshot, TxnAction, Transaction, ApplyResult}
use fyrwall.Firewall.Ownership.{ufw}
use fyrwall.Firewall.Manager.Backend.{Backend, IsFaithful}
use fyrwall.Firewall.Manager.State.{Manager}

abbrev pub allow_ssh : Rule
allow_ssh = record {
  id = "a";
  backend_id = "";
  family = "ipv4";
  direction = "in";
  action = "allow";
  protocol = "tcp";
  source = "any";
  source_port = "";
  destination = "any";
  destination_port = "22";
  interface_in = "";
  interface_out = "";
  state = "";
  comment = "";
  enabled = true;
  priority = pos 10;
  backend = "ufw";
  raw_reference = "";
  created_by = "";
  created_at = 0;
  updated_at = 0;
}

abbrev pub deny_low : Rule
deny_low = record allow_ssh {
  id = "b";
  action = "deny";
  source = "10.0.0.0/8";
  destination_port = "20:30";
  priority = pos 5;
}

abbrev pub add : Rule → TxnAction
add r = record { op = "add"; rule = some r; rule_id = "" }

abbrev pub txn : List TxnAction → Transaction
txn actions = record {
  id = "t1";
  backend = "ufw";
  actions = actions;
  created_by = "root";
  created_at = 0;
}

abbrev pub snapshot_of : String → Snapshot
snapshot_of save = record {
  id = "s1";
  reason = "";
  backend = "ufw";
  backend_ver = "";
  iptables_save = save;
  ip6tables_save = "";
  ufw_status = "";
  state_hash = "";
  created_at = 0;
  created_by = "";
  notes = "";
}

abbrev pub applied : ApplyResult
applied = record {
  txn_id = "t1";
  applied = 1;
  snapshot_id = "";
  state_hash = "h";
  duration_ms = 0;
  warnings = [];
  verify_result = none;
}

abbrev pub fault : Bool → Option String
fault true = some "exit status 1"
fault false = none

-- The host is the text of its ruleset. Every apply leaves half of its work and fails if `broken`
-- is true; every read succeeds.
abbrev pub text_backend : Bool → Backend
text_backend broken = record {
  Host = String;
  status = λ h. (
    record {
      backend = "ufw";
      enabled = true;
      default_policies = [];
      rule_count = 0;
      ipv4_ready = true;
      ipv6_ready = true;
      raw_version = "";
      checked_at = 0;
    },
    none,
    h,
  );
  list_rules = λ h. ([], none, h);
  validate = λ tx h. (record { valid = true; errors = []; conflicts = [] }, h);
  snapshot = λ r h. (snapshot_of h, none, h);
  apply = λ tx h. (applied, fault broken, "half applied");
  verify = λ expected h.
      (record { match = true; observed = "h"; expected = expected; details = "" }, none, h);
  restore = λ s h. (none, s.iptables_save);
  reload = λ h. (none, h);
  restart = λ h. (none, h);
  restore_snapshot = none;
  ownership_report = none;
}

abbrev pub Text : Snapshot → String → Type 0
Text s c = s.iptables_save ≡ c

pub text_backend-IsFaithful :
    (broken : Bool) → IsFaithful (text_backend broken) String (λ h. h) Text
text_backend-IsFaithful broken = record {
  list_keeps = λ h. refl;
  validate_keeps = λ tx h. refl;
  snapshot_keeps = λ r h. refl;
  report_keeps = λ f h e. cc;
  snapshot_takes = λ r h k e. refl;
  restores = λ s c h t e. t;
}

abbrev pub started : Manager String
started = record {
  snapshots = [];
  ownership = record {
    owner = ufw;
    writes_allowed = true;
    reason = "";
    conflicts = [];
    firewalld_active = false;
    nftables_ruleset = false;
    ufw_active = true;
    iptables_mode = "nft";
    details = "";
  };
  last_hash = "";
  last_read = 0;
  last_write = 0;
  last_snapshot = none;
  has_audit = true;
  has_notify = true;
  audits = [];
  issues = [];
  host = "-A INPUT -j ACCEPT";
}
