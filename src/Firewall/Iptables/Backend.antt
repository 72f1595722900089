-- ===== src/Firewall/Iptables/Backend.antt =====
-- internal/firewall/iptables/iptables.go: the backend, over the commands of the host, which are
-- parameters: what `exec.Run` and `exec.RunInput` come to, the identifiers, the clock, SHA-256
-- and the quoting of `%q`. A command without a result has the empty text for both of its streams.
pub mod Faithful
pub mod Drift
pub mod Writable
use text.Mathlib.Text.{◌==◌}
use fyrwall.Base.{
  ℕ, suc, ◌-◌, ◌/◌, String, Bool, true, false, not, ◌&&◌, ◌||◌, ◌⊎◌, inl, inr, Option, none, some,
  List, [], ◌∷◌, ◌++◌, map, any, length, ltb, if◌then◌else◌, is_empty,
}
use fyrwall.Base.Text.{split, trim_space, join, cut}
use fyrwall.Base.Text.Fold.{has_prefix, fields}
use fyrwall.Firewall.Rules.{
  Rule, DefaultPolicy, FirewallStatus, Snapshot, Transaction, TxnAction, ApplyResult, VerifyResult,
  ValidationResult, backend_fault,
}
use fyrwall.Firewall.Validation.{validate_tx}
use fyrwall.Firewall.Shell.{Output, Shell, first_line, wrap, refused, result_of, and_actions}
use fyrwall.Firewall.Manager.Backend.{Backend}
use fyrwall.Firewall.Iptables.Parser.{parse, chain_to_direction}
use fyrwall.Firewall.Iptables.Arguments.{
  ArgsError, unsupported_op, unsupported_direction, unsupported_action, rule_to_args,
}

-- the paths that the backend uses, empty where a binary was not found
pub record Tools : Type 0 where
  pub iptables : String
  pub iptables_save : String
  pub iptables_restore : String
  pub ip6tables_save : String
  pub ip6tables_restore : String
  pub version : String

-- a default policy, of a line that begins with "-P "
abbrev policy_of : List String → List DefaultPolicy
policy_of (p ∷ chain ∷ target ∷ fs) =
    let dir = chain_to_direction chain in
    if dir == ""
    then []
    else record { direction = dir; action = if target == "ACCEPT" then "allow" else "deny" } ∷ []
policy_of _ = []

unfoldable pub policies_in : List String → List DefaultPolicy
policies_in [] = []
policies_in (raw ∷ raws) =
    let line = trim_space raw in
    (if has_prefix line "-P " then policy_of (fields line) else []) ++ policies_in raws

module _ {H : Type 0} (sh : Shell H) (tools : Tools) where
  open sh use {run, run_input, new_id, rule_ids, now, hash, quote}

  abbrev Failing : Type 0 → Type 0
  Failing A = A × Option String × H

  abbrev args_text : ArgsError → String
  args_text (unsupported_op op) =
      join "" ("iptables adapter supports add/delete, got " ∷ quote op ∷ [])
  args_text (unsupported_direction d) = join "" ("unsupported direction " ∷ quote d ∷ [])
  args_text (unsupported_action a) = join "" ("unsupported action " ∷ quote a ∷ [])

  -- `Status`
  abbrev blank_status : H → FirewallStatus
  blank_status h = record {
    backend = "iptables";
    enabled = false;
    default_policies = [];
    rule_count = 0;
    ipv4_ready = false;
    ipv6_ready = false;
    raw_version = "";
    checked_at = now h;
  }

  abbrev ready6 : Output × H → FirewallStatus → Failing FirewallStatus
  ready6 ((none, out, err), h) st = (record st { ipv6_ready = true }, none, h)
  ready6 ((some e, out, err), h) st = (st, none, h)

  abbrev status_in : FirewallStatus → H → List Rule → List DefaultPolicy → FirewallStatus
  status_in st h rules policies = record st {
    enabled = ltb 0 (length rules) || ltb 0 (length policies);
    rule_count = length rules;
    ipv4_ready = true;
    raw_version = tools.version;
    default_policies = policies;
  }

  abbrev status_after : FirewallStatus → Output × H → Failing FirewallStatus
  status_after st ((some e, out, err), h) = (st, some (wrap "firewall backend unavailable" e), h)
  status_after st ((none, out, err), h) =
      let st' =
        status_in st h (parse (rule_ids h) (now h) "ipv4" out) (policies_in (split 10 out)) in
      if tools.ip6tables_save == ""
      then (st', none, h)
      else ready6 (run tools.ip6tables_save [] h) st'

  unfoldable pub status : H → FirewallStatus × Option String × H
  unfolding policies_in
  status h = status_after (blank_status h) (run tools.iptables_save [] h)

  -- `ListRules`
  abbrev with_family6 : Rule → Rule
  with_family6 r = record r { family = "ipv6" }

  abbrev pub rules6 : List Rule → Output × H → Failing (List Rule)
  rules6 rules ((none, out, err), h) =
      (rules ++ map with_family6 (parse (rule_ids h) (now h) "ipv6" out), none, h)
  rules6 rules ((some e, out, err), h) = (rules, none, h)

  abbrev pub rules_after : Output × H → Failing (List Rule)
  rules_after ((some e, out, err), h) = ([], some (wrap "firewall backend unavailable" e), h)
  rules_after ((none, out, err), h) =
      let rules = parse (rule_ids h) (now h) "ipv4" out in
      if tools.ip6tables_save == ""
      then (rules, none, h)
      else rules6 rules (run tools.ip6tables_save [] h)

  unfoldable pub list_rules : H → List Rule × Option String × H
  list_rules h = rules_after (run tools.iptables_save [] h)

  -- `Validate`
  abbrev pub is_foreign : TxnAction → Bool
  is_foreign a = not (a.op == "add") && not (a.op == "delete")

  abbrev pub validated : Transaction → Failing (List Rule) → ValidationResult × H
  validated tx (rules, none, h) = (validate_tx tx rules, h)
  validated tx (rules, some e, h) = (refused e, h)

  unfoldable pub validate : Transaction → H → ValidationResult × H
  unfolding list_rules
  validate tx h =
      if any is_foreign tx.actions
      then (refused "iptables supports add and delete transactions", h)
      else validated tx (list_rules h)

  -- what a save command adds to a snapshot: nothing, where it is not there or fails
  abbrev pub saved : Output × H → String × H
  saved ((none, out, err), h) = (out, h)
  saved ((some e, out, err), h) = ("", h)

  abbrev pub save : String → H → String × H
  save bin h = if bin == "" then ("", h) else saved (run bin [] h)

  -- `Snapshot`
  unfoldable pub snapshot : String → H → Snapshot × Option String × H
  snapshot reason h =
      let (v4, h4) = save tools.iptables_save h in
      let (v6, h6) = save tools.ip6tables_save h4 in
      (
        record {
          id = join "" ("snap-" ∷ new_id h ∷ []);
          reason = reason;
          backend = "iptables";
          backend_ver = "";
          iptables_save = v4;
          ip6tables_save = v6;
          ufw_status = "";
          state_hash = hash (join "\0" (v4 ∷ v6 ∷ []));
          created_at = now h;
          created_by = "";
          notes = "";
        },
        none,
        h6,
      )

  -- `applyAction`
  abbrev pub action_ran : String → Output × H → Option String × H
  action_ran op ((none, out, err), h) = (none, h)
  action_ran op ((some e, out, err), h) = (
    some (wrap "firewall command failed" (join "" ("iptables " ∷ op ∷ ": " ∷ first_line err ∷ []))),
    h,
  )

  abbrev pub run_args : String → ArgsError ⊎ List String → H → Option String × H
  run_args op (inl e) h = (some (args_text e), h)
  run_args op (inr args) h = action_ran op (run tools.iptables args h)

  abbrev pub apply_rule : String → Option Rule → H → Option String × H
  apply_rule op none h =
      (some (join "" ("iptables action " ∷ quote op ∷ " requires a rule" ∷ [])), h)
  apply_rule op (some r) h = run_args op (rule_to_args r op) h

  unfoldable pub apply_action : TxnAction → H → Option String × H
  unfolding first_line rule_to_args
  apply_action a h = apply_rule a.op a.rule h

  -- the loop of `Apply`: how many actions were applied, and the error that ended it
  unfoldable pub apply_actions : List TxnAction → ℕ → H → ℕ × Option String × H
  unfolding apply_action
  apply_actions [] applied h = (applied, none, h)
  apply_actions (a ∷ rest) applied h = and_actions (apply_action a h) applied (apply_actions rest)

  abbrev pub finished : String → ℕ → ℕ → Output × H → Failing ApplyResult
  finished id applied start ((e, out, err), h) =
      (result_of id applied (hash out) ((now h - start) / 1000000), none, h)

  abbrev pub applied_by : String → ℕ → ℕ × Option String × H → Failing ApplyResult
  applied_by id start (applied, none, h) = finished id applied start (run tools.iptables_save [] h)
  applied_by id start (applied, some e, h) = (result_of id applied "" 0, some e, h)

  -- `Apply`
  unfoldable pub apply : Transaction → H → ApplyResult × Option String × H
  unfolding apply_actions
  apply tx h = applied_by tx.id (now h) (apply_actions tx.actions 0 h)

  -- `Verify`
  abbrev pub verified : String → Output × H → Failing VerifyResult
  verified expected ((none, out, err), h) = (
    record { match = hash out == expected; observed = hash out; expected = expected; details = "" },
    none,
    h,
  )
  verified expected ((some e, out, err), h) =
      (record { match = false; observed = ""; expected = ""; details = "" }, some e, h)

  unfoldable pub verify : String → H → VerifyResult × Option String × H
  verify expected h = verified expected (run tools.iptables_save [] h)

  -- the function `restore`
  abbrev pub restored : String → Output × H → Option String × H
  restored bin ((none, out, err), h) = (none, h)
  restored bin ((some e, out, err), h) = (some (wrap bin (first_line err)), h)

  unfoldable pub restore_with : String → String → H → Option String × H
  unfolding first_line
  restore_with bin content h =
      if bin == ""
      then (some " binary not available", h)
      else restored bin (run_input bin content h)

  abbrev pub rollback_text : Option String × H → Option String × H
  rollback_text (none, h) = (none, h)
  rollback_text (some e, h) = (some (wrap "firewall rollback failed" e), h)

  abbrev pub restore6 : Snapshot → Option String × H → Option String × H
  restore6 snap (some e, h) = (some e, h)
  restore6 snap (none, h) =
      if not (snap.ip6tables_save == "") && not (tools.ip6tables_restore == "")
      then rollback_text (restore_with tools.ip6tables_restore snap.ip6tables_save h)
      else (none, h)

  -- the method `Restore`
  unfoldable pub restore : Snapshot → H → Option String × H
  unfolding restore_with
  restore snap h = restore6 snap (
      if snap.iptables_save == ""
      then (none, h)
      else rollback_text (restore_with tools.iptables_restore snap.iptables_save h))

  -- `New`: the backend that the manager is given
  abbrev pub iptables_backend : Backend
  iptables_backend = record {
    Host = H;
    status = status;
    list_rules = list_rules;
    validate = validate;
    snapshot = snapshot;
    apply = apply;
    verify = verify;
    restore = restore;
    reload = λ h. (none, h);
    restart = λ h. (none, h);
    restore_snapshot = none;
    ownership_report = none;
  }
