-- ===== src/Firewall/Ufw/Backend.antt =====
-- internal/firewall/ufw/ufw.go: the backend, over the commands of the host. `bin` is the path of
-- ufw. A command without a result has the empty text for both of its streams.
pub mod Faithful
use text.Mathlib.Text.{◌==◌}
use fyrwall.Base.{
  ℕ, ◌-◌, ◌/◌, String, Bool, true, false, not, ◌&&◌, ◌||◌, Option, none, some, List, [], ◌∷◌, any,
  if◌then◌else◌,
}
use fyrwall.Base.Text.{join}
use fyrwall.Firewall.Rules.{
  Rule, FirewallStatus, Snapshot, Transaction, TxnAction, ApplyResult, VerifyResult,
  ValidationResult,
}
use fyrwall.Firewall.Validation.{validate_tx}
use fyrwall.Firewall.Shell.{Output, Shell, first_line, wrap, refused, result_of, and_actions}
use fyrwall.Firewall.Manager.Backend.{Backend}
use fyrwall.Firewall.Ufw.Arguments.{to_ufw_args}
use fyrwall.Firewall.Ufw.Listing.{parse_status_verbose, parse_status_numbered}

abbrev pub no_status : FirewallStatus
no_status = record {
  backend = "";
  enabled = false;
  default_policies = [];
  rule_count = 0;
  ipv4_ready = false;
  ipv6_ready = false;
  raw_version = "";
  checked_at = 0;
}

-- what `hashSnapshot` hashes
abbrev pub state_text : String → String → String → String
state_text ufw_status v4 v6 = join "" (ufw_status ∷ v4 ∷ v6 ∷ [])

abbrev pub no_verify : VerifyResult
no_verify = record { match = false; observed = ""; expected = ""; details = "" }

module _ {H : Type 0} (sh : Shell H) (bin : String) where
  open sh use {run, run_input, new_id, rule_ids, now, hash, quote}

  abbrev pub status_run : H → Output × H
  status_run h = run bin ("status" ∷ "verbose" ∷ []) h

  -- `Status`
  abbrev status_of : Output × H → FirewallStatus × Option String × H
  status_of ((none, out, err), h) = (parse_status_verbose (now h) out, none, h)
  status_of ((some e, out, err), h) = (no_status, some (wrap "firewall backend unavailable" e), h)

  unfoldable pub status : H → FirewallStatus × Option String × H
  unfolding parse_status_verbose
  status h = status_of (status_run h)

  -- `ListRules`
  abbrev pub rules_of : Output × H → List Rule × Option String × H
  rules_of ((none, out, err), h) = (parse_status_numbered (rule_ids h) (now h) out, none, h)
  rules_of ((some e, out, err), h) = ([], some (wrap "firewall backend unavailable" e), h)

  unfoldable pub list_rules : H → List Rule × Option String × H
  unfolding parse_status_numbered
  list_rules h = rules_of (run bin ("status" ∷ "numbered" ∷ []) h)

  -- `Validate`
  abbrev pub is_foreign : TxnAction → Bool
  is_foreign a = not (a.op == "add") && not (a.op == "update") && not (a.op == "delete")

  abbrev pub validated : Transaction → List Rule × Option String × H → ValidationResult × H
  validated tx (rules, none, h) = (validate_tx tx rules, h)
  validated tx (rules, some e, h) = (refused e, h)

  unfoldable pub validate : Transaction → H → ValidationResult × H
  unfolding list_rules
  validate tx h =
      if any is_foreign tx.actions
      then (refused "UFW supports add, update, and delete transactions", h)
      else validated tx (list_rules h)

  -- what a command adds to a snapshot: nothing, where it fails
  abbrev pub captured : Output × H → String × H
  captured ((none, out, err), h) = (out, h)
  captured ((some e, out, err), h) = ("", h)

  -- `Snapshot`
  unfoldable pub snapshot : String → H → Snapshot × Option String × H
  snapshot reason h =
      let (s, h0) = captured (status_run h) in
      let (v4, h4) = captured (run "iptables-save" [] h0) in
      let (v6, h6) = captured (run "ip6tables-save" [] h4) in
      (
        record {
          id = join "" ("snap-" ∷ new_id h ∷ []);
          reason = reason;
          backend = "ufw";
          backend_ver = "";
          iptables_save = v4;
          ip6tables_save = v6;
          ufw_status = s;
          state_hash = hash (state_text s v4 v6);
          created_at = now h;
          created_by = "";
          notes = "";
        },
        none,
        h6,
      )

  -- the end of a command that an action runs
  abbrev pub command_ran : String → Output × H → Option String × H
  command_ran what ((none, out, err), h) = (none, h)
  command_ran what ((some e, out, err), h) = (
    some (wrap "firewall command failed" (join "" ("ufw " ∷ what ∷ ": " ∷ first_line err ∷ []))),
    h,
  )

  -- the new rule of an update, once the old one is deleted
  abbrev pub and_then : Option String × H → (H → Option String × H) → Option String × H
  and_then (none, h) next = next h
  and_then (some e, h) next = (some e, h)

  abbrev pub put_rule : TxnAction → Option Rule → H → Option String × H
  put_rule a none h = (some "add/update action without rule", h)
  put_rule a (some r) h =
      let added = λ (g : H). command_ran a.op (run bin (to_ufw_args r) g) in
      if not (a.op == "update")
      then added h
      else if a.rule_id == ""
      then (some "update action requires backend rule ID", h)
      else and_then (command_ran "update delete" (run bin ("delete" ∷ a.rule_id ∷ []) h)) added

  abbrev pub delete_rule : Option Rule → H → Option String × H
  delete_rule none h = (some "delete action without rule reference", h)
  delete_rule (some r) h = command_ran "delete" (run bin ("delete" ∷ to_ufw_args r) h)

  -- `applyAction`
  unfoldable pub apply_action : TxnAction → H → Option String × H
  unfolding first_line to_ufw_args
  apply_action a h =
      if a.op == "add" || a.op == "update"
      then put_rule a a.rule h
      else if a.op == "delete"
      then (if a.rule_id == ""
          then delete_rule a.rule h
          else command_ran "delete" (run bin ("delete" ∷ a.rule_id ∷ []) h))
      else (some (join "" ("unsupported ufw action " ∷ quote a.op ∷ [])), h)

  -- the loop of `Apply`: how many actions were applied, and the error that ended it
  unfoldable pub apply_actions : List TxnAction → ℕ → H → ℕ × Option String × H
  unfolding apply_action
  apply_actions [] applied h = (applied, none, h)
  apply_actions (a ∷ rest) applied h = and_actions (apply_action a h) applied (apply_actions rest)

  abbrev pub finished : String → ℕ → ℕ → Output × H → ApplyResult × Option String × H
  finished id applied start ((none, out, err), h) =
      (result_of id applied (hash (state_text out "" "")) ((now h - start) / 1000000), none, h)
  finished id applied start ((some e, out, err), h) = (result_of id applied "" 0, some e, h)

  abbrev pub applied_by : String → ℕ → ℕ × Option String × H → ApplyResult × Option String × H
  applied_by id start (applied, none, h) = finished id applied start (status_run h)
  applied_by id start (applied, some e, h) = (result_of id applied "" 0, some e, h)

  -- `Apply`
  unfoldable pub apply : Transaction → H → ApplyResult × Option String × H
  unfolding apply_actions
  apply tx h = applied_by tx.id (now h) (apply_actions tx.actions 0 h)

  -- `Verify`
  abbrev pub verified : String → Output × H → VerifyResult × Option String × H
  verified expected ((none, out, err), h) =
      let observed = hash (state_text out "" "") in
      (
        record {
          match = observed == expected;
          observed = observed;
          expected = expected;
          details = "";
        },
        none,
        h,
      )
  verified expected ((some e, out, err), h) = (no_verify, some e, h)

  unfoldable pub verify : String → H → VerifyResult × Option String × H
  verify expected h = verified expected (status_run h)

  -- `restoreIptables`
  abbrev pub restored : String → Output × H → Option String × H
  restored command ((none, out, err), h) = (none, h)
  restored command ((some e, out, err), h) =
      (some (join ": " ("firewall command failed" ∷ command ∷ first_line err ∷ [])), h)

  unfoldable pub restore_iptables : String → String → H → Option String × H
  unfolding first_line
  restore_iptables command content h = restored command (run_input command content h)

  -- the method `Restore`
  unfoldable pub restore : Snapshot → H → Option String × H
  unfolding restore_iptables
  restore snap h =
      let v6 = λ (g : H).
        (if snap.ip6tables_save == ""
          then (none, g)
          else restore_iptables "ip6tables-restore" snap.ip6tables_save g) in
      if snap.iptables_save == ""
      then v6 h
      else and_then (restore_iptables "iptables-restore" snap.iptables_save h) v6

  -- `Reload` and `Restart`
  abbrev command_error : Output × H → Option String × H
  command_error ((none, out, err), h) = (none, h)
  command_error ((some e, out, err), h) =
      (some (wrap "firewall command failed" (first_line err)), h)

  unfoldable pub reload : H → Option String × H
  unfolding first_line
  reload h = command_error (run bin ("reload" ∷ []) h)

  abbrev disabled : Output × H → Option String × H
  disabled ((none, out, err), h) = command_error (run bin ("enable" ∷ []) h)
  disabled ((some e, out, err), h) = (some e, h)

  unfoldable pub restart : H → Option String × H
  unfolding first_line
  restart h = disabled (run bin ("disable" ∷ []) h)

  -- `New`: the backend that the manager is given
  abbrev pub ufw_backend : Backend
  ufw_backend = record {
    Host = H;
    status = status;
    list_rules = list_rules;
    validate = validate;
    snapshot = snapshot;
    apply = apply;
    verify = verify;
    restore = restore;
    reload = reload;
    restart = restart;
    restore_snapshot = none;
    ownership_report = none;
  }
