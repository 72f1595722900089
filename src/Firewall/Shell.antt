-- ===== src/Firewall/Shell.antt =====
-- The commands of the host as internal/firewall/ufw and internal/firewall/iptables use them, and
-- the steps that the two backends share.
use fyrwall.Base.{ℕ, suc, String, false, Option, none, some, List, [], ◌∷◌}
use fyrwall.Base.Text.{trim_space, join, cut}
use fyrwall.Firewall.Rules.{ApplyResult, ValidationResult, backend_fault}

-- the result of a command: the text of its error, where it has one, and its two streams
abbrev pub Output : Type 0
Output = Option String × String × String

pub record Shell (H : Type 0) : Type 0 where
  pub run : String → List String → H → Output × H
  pub run_input : String → String → H → Output × H
  pub new_id : H → String
  -- the identifiers of the rules of a listing, by their places
  pub rule_ids : H → ℕ → String
  pub now : H → ℕ
  pub hash : String → String
  pub quote : String → String

-- `firstLine`
abbrev before_newline : String → Option (String × String) → String
before_newline s none = s
before_newline s (some (a, b)) = a

unfoldable pub first_line : String → String
first_line s = before_newline (trim_space s) (cut 10 (trim_space s))

-- `fmt.Errorf("%w: %s", sentinel, text)`
abbrev pub wrap : String → String → String
wrap sentinel text = join ": " (sentinel ∷ text ∷ [])

-- a transaction that is refused before it is looked at
abbrev pub refused : String → ValidationResult
refused text = record { valid = false; errors = backend_fault text ∷ []; conflicts = [] }

-- the result of an apply
abbrev pub result_of : String → ℕ → String → ℕ → ApplyResult
result_of id applied hashed ms = record {
  txn_id = id;
  applied = applied;
  snapshot_id = "";
  state_hash = hashed;
  duration_ms = ms;
  warnings = [];
  verify_result = none;
}

-- the loop over the actions: it ends at the first error
abbrev pub and_actions :
    {H : Type 0} → Option String × H → ℕ → (ℕ → H → ℕ × Option String × H) → ℕ × Option String × H
and_actions (none, h) applied rest = rest (suc applied) h
and_actions (some e, h) applied rest = (applied, some e, h)
