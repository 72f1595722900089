-- ===== src/Firewall/Validation/Transactions.antt =====
-- When a transaction is found valid.
use text.Mathlib.Text.{◌==◌}
use fyrwall.Base.{
  String, All, ◌↔◌, ◌⊎◌, Option, eq_iff, sym, ◌∙◌, ◌≡◌, refl, Bool, true, false, not, ◌&&◌, ◌||◌,
  none, some, List, [], ◌∷◌, ◌++◌, arith, is_empty, any, every, All-append, any-append,
  if◌then◌else◌, Option-cases, inl, inr,
}
use fyrwall.Base.Text.Laws.{ne_of_test}
use fyrwall.Firewall.Rules.{Rule, Conflict, TxnAction, Transaction}
use fyrwall.Firewall.Conflicts.Dedupe.{dedupe}
use fyrwall.Firewall.Conflicts.Lockout.{LocksOut, locks_out_iff}
use fyrwall.Firewall.Conflicts.Critical.{
  is_critical, locks_out, analyze-locks_out, AllLettered, IsLettered, analyze-AllLettered,
  any-critical-dedupe,
}
use fyrwall.Firewall.Validation.{
  without, action_faults, action_conflicts, all_faults, all_conflicts, critical_faults, validate_tx,
}

-- Would the rule of this action lock the administrator out?
abbrev pub rule_locks_out : List Rule → TxnAction → Rule → Bool
rule_locks_out current a r =
    if a.op == "add"
    then locks_out current r
    else if a.op == "update" || a.op == "enable" || a.op == "disable"
    then locks_out (without a r current) r
    else false

abbrev pub action_locks_out : List Rule → TxnAction → Bool
action_locks_out current a = elim a.rule [ none ↦ false | some r ↦ rule_locks_out current a r ]

-- No static check on the action's rule fails, and it does not lock out.
abbrev pub is_safe : List Rule → TxnAction → Bool
is_safe current a = is_empty (action_faults a) && not (action_locks_out current a)

module _ (current : List Rule) where
  action_conflicts-AllLettered : (a : TxnAction) → AllLettered (action_conflicts current a)
  unfolding action_conflicts
  action_conflicts-AllLettered a = elim (Option-cases a.rule) [
    | inl e ↦ ground arith
    | inr w ↦ ground (
      arith,
      w.1,
      analyze-AllLettered current (some w.0),
      analyze-AllLettered (without a w.0 current) (some w.0),
    )
  ]

  any-action_conflicts :
      (a : TxnAction) → any is_critical (action_conflicts current a) ≡ action_locks_out current a
  unfolding action_conflicts any
  any-action_conflicts a = elim (Option-cases a.rule) [
    | inl e ↦ ground arith
    | inr w ↦
        ground
          (arith, w.1, analyze-locks_out current w.0, analyze-locks_out (without a w.0 current) w.0)
  ]

  all_conflicts-AllLettered :
      (actions : List TxnAction) → AllLettered (all_conflicts current actions)
  unfolding all_conflicts
  all_conflicts-AllLettered [] = tt
  all_conflicts-AllLettered (a ∷ rest) =
      All-append (λ c. IsLettered c) (action_conflicts current a) (all_conflicts current rest)
        (action_conflicts-AllLettered a) (all_conflicts-AllLettered rest)

  any-all_conflicts :
      (actions : List TxnAction)
      → any is_critical (all_conflicts current actions) ≡ any (action_locks_out current) actions
  unfolding all_conflicts any
  any-all_conflicts [] = refl
  any-all_conflicts (a ∷ rest) = rw (any-append, any-action_conflicts a, any-all_conflicts rest)

is_empty-append {ℓ} :
    {A : Type ℓ} (xs ys : List A) → is_empty (xs ++ ys) ≡ (is_empty xs && is_empty ys)
is_empty-append [] ys = refl
is_empty-append (x ∷ xs) ys = refl

is_empty-critical_faults :
    (cs : List Conflict) → is_empty (critical_faults cs) ≡ not (any is_critical cs)
unfolding critical_faults any
is_empty-critical_faults [] = refl
is_empty-critical_faults (c ∷ cs) = ground (arith, is_empty-critical_faults cs)

every-is_safe :
    (current : List Rule) (actions : List TxnAction)
    → (is_empty (all_faults actions) && not (any (action_locks_out current) actions))
      ≡ every (is_safe current) actions
unfolding all_faults any every
every-is_safe current [] = refl
every-is_safe current (a ∷ rest) = rw (is_empty-append, ← every-is_safe current rest) (ground arith)

-- A transaction is found valid exactly when the tests pass on each of its actions.
pub validate_tx-every :
    (tx : Transaction) (current : List Rule)
    → (validate_tx tx current).valid ≡ every (is_safe current) tx.actions
unfolding validate_tx
validate_tx-every tx current =
    rw
      (
        is_empty-append,
        is_empty-critical_faults,
        any-critical-dedupe (all_conflicts current tx.actions)
            (all_conflicts-AllLettered current tx.actions),
        any-all_conflicts,
      )
      (every-is_safe current tx.actions)

-- The rule of this action would lock the administrator out: an added rule beside the current ones,
-- a changed one beside the others.
abbrev pub ActionLocksOut : List Rule → TxnAction → Option Rule → Type 0
ActionLocksOut current a none = ⊥
ActionLocksOut current a (some r) =
    ((a.op ≡ "add") × LocksOut current r)
    ⊎ (((a.op ≡ "update") ⊎ ((a.op ≡ "enable") ⊎ (a.op ≡ "disable")))
        × LocksOut (without a r current) r)

abbrev pub IsSafe : List Rule → TxnAction → Type 0
IsSafe current a = (action_faults a ≡ []) × (ActionLocksOut current a a.rule → ⊥)

apart : (op x y : String) → (x == y) ≡ false → op ≡ x → op ≡ y → ⊥
apart op x y t p q = ne_of_test x y t (sym p ∙ q)

rule_locks_out_iff :
    (current : List Rule) (a : TxnAction) (o : Option Rule)
    → (elim o [ none ↦ false | some r ↦ rule_locks_out current a r ] ≡ true)
      ↔ ActionLocksOut current a o
rule_locks_out_iff current a none = (λ h. cc, λ h. absurd h)
rule_locks_out_iff current a (some r) =
    let added = locks_out_iff current r in
    let changed = locks_out_iff (without a r current) r in
    ground (
      arith,
      added,
      changed,
      apart a.op "add" "update" refl,
      apart a.op "add" "enable" refl,
      apart a.op "add" "disable" refl,
      eq_iff a.op "add",
      eq_iff a.op "update",
      eq_iff a.op "enable",
      eq_iff a.op "disable",
    )

is_empty_iff {ℓ} : {A : Type ℓ} (xs : List A) → (is_empty xs ≡ true) ↔ (xs ≡ [])
is_empty_iff [] = (λ h. refl, λ h. refl)
is_empty_iff (x ∷ xs) = (λ h. cc, λ h. cc)

is_safe_iff : (current : List Rule) (a : TxnAction) → (is_safe current a ≡ true) ↔ IsSafe current a
is_safe_iff current a =
    let empty = is_empty_iff (action_faults a) in
    let out = rule_locks_out_iff current a a.rule in ground (arith, empty, out)

every-is_safe_iff :
    (current : List Rule) (actions : List TxnAction)
    → (every (is_safe current) actions ≡ true) ↔ All (IsSafe current) actions
unfolding every
every-is_safe_iff current [] = (λ h. tt, λ h. refl)
every-is_safe_iff current (a ∷ rest) =
    let here = is_safe_iff current a in
    let there = every-is_safe_iff current rest in ground (arith, here, there)

-- A transaction is found valid exactly when, for each of its actions, no static check on its rule
-- fails, and an added rule does not lock out beside the current rules, nor a rule that is
-- updated, enabled or disabled beside the other ones; to lock out is to deny, reject or drop
-- inbound traffic and to have a source or destination that is empty, "any" or holds 127.0.0.1, or
-- to meet an inbound allow rule in its destination ports, each read as one range, and its source,
-- where one is open or both are the same text.
pub validate_tx_valid :
    (tx : Transaction) (current : List Rule)
    → ((validate_tx tx current).valid ≡ true) ↔ All (IsSafe current) tx.actions
validate_tx_valid tx current =
    let e = validate_tx-every tx current in
    let t = every-is_safe_iff current tx.actions in (λ h. t.0 (sym e ∙ h), λ h. e ∙ t.1 h)

-- A transaction that is found valid carries no critical conflict.
pub valid_has_no_critical :
    (tx : Transaction) (current : List Rule)
    → (validate_tx tx current).valid ≡ true
    → any is_critical (validate_tx tx current).conflicts ≡ false
unfolding validate_tx
valid_has_no_critical tx current h = ground (
  arith,
  h,
  is_empty-append (all_faults tx.actions)
      (critical_faults (dedupe (all_conflicts current tx.actions))),
  is_empty-critical_faults (dedupe (all_conflicts current tx.actions)),
)
