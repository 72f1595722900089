-- ===== src/Firewall/Iptables/Backend/Writable.antt =====
-- internal/firewall/iptables/iptables.go: what `Validate` promises to `Apply`.
use text.Mathlib.Text.{◌==◌}
use fyrwall.Base.{
  String, ◌≡◌, ◌≢◌, refl, sym, ◌∙◌, Bool, true, false, not, ◌&&◌, ◌||◌, ◌⊎◌, inl, inr, Option, none,
  some, List, [], ◌∷◌, any, every, is_empty, All, Bool-cases,
}
use fyrwall.Firewall.Rules.{Rule, TxnAction, Transaction}
use fyrwall.Firewall.Shell.{Shell}
use fyrwall.Firewall.Validation.{action_faults, validate_tx}
use fyrwall.Firewall.Validation.WellFormed.{IsWellFormed, validate_rule_sound}
use fyrwall.Firewall.Validation.Transactions.{is_safe, validate_tx-every}
use fyrwall.Firewall.Iptables.Arguments.{ArgsError, direction_to_chain, target_of, rule_to_args}
use fyrwall.Firewall.Iptables.Backend.{
  Tools, is_foreign, validated, list_rules, validate, apply_action,
}

target-known :
    (a : String)
    → (a ≡ "allow") ⊎ ((a ≡ "deny") ⊎ ((a ≡ "reject") ⊎ ((a ≡ "drop") ⊎ (a ≡ "log"))))
    → (t : String) × (target_of a ≡ some t)
unfolding target_of
target-known a (inl e) = ("ACCEPT", rw e refl)
target-known a (inr (inl e)) = ("DROP", rw e refl)
target-known a (inr (inr (inl e))) = ("REJECT", rw e refl)
target-known a (inr (inr (inr (inl e)))) = ("DROP", rw e refl)
target-known a (inr (inr (inr (inr e)))) = ("LOG", rw e refl)

chain-known :
    (d : String)
    → (d ≡ "in") ⊎ ((d ≡ "out") ⊎ (d ≡ "forward"))
    → (direction_to_chain d == "") ≡ false
unfolding direction_to_chain
chain-known d (inl e) = rw e refl
chain-known d (inr (inl e)) = rw e refl
chain-known d (inr (inr e)) = rw e refl

abbrev pub IsWritten : Rule → String → Type 0
IsWritten r op =
    (args : List String) × (◌≡◌ {A = ArgsError ⊎ List String} (rule_to_args r op) (inr args))

rule_to_args-IsWritten :
    (r : Rule) (op : String)
    → IsWellFormed r
    → (not (op == "add") && not (op == "delete")) ≡ false
    → IsWritten r op
unfolding rule_to_args
rule_to_args-IsWritten r op w h =
    let (t, e) = target-known r.action w.action in
    rw (h, chain-known r.direction w.direction, e) (_, refl)

-- the rule of an action, where it has one, is written
abbrev pub CanRun : TxnAction → Type 0
CanRun a = (r : Rule) → a.rule ≡ some r → IsWritten r a.op

empty_nil {ℓ} : {A : Type ℓ} (xs : List A) → is_empty xs ≡ true → xs ≡ []
empty_nil [] e = refl
empty_nil (x ∷ xs) e = cc

and_true : (b c : Bool) → (b && c) ≡ true → (b ≡ true) × (c ≡ true)
and_true true c h = (refl, h)
and_true false c h = cc

or_false : (b c : Bool) → (b || c) ≡ false → (b ≡ false) × (c ≡ false)
or_false false c h = (refl, h)
or_false true c h = cc

refused_never : false ≢ true
refused_never e = cc

safe-CanRun :
    (current : List Rule) (a : TxnAction)
    → (not (a.op == "add") && not (a.op == "delete")) ≡ false
    → is_safe current a ≡ true
    → CanRun a
unfolding action_faults
safe-CanRun current a h s r e =
    let faults : is_empty (action_faults a) ≡ true = (and_true _ _ s).0 in
    rule_to_args-IsWritten r a.op (validate_rule_sound r (empty_nil _ (rw e at faults))) h

module _ {H : Type 0} (sh : Shell H) (tools : Tools) where
  every-CanRun :
      (current : List Rule) (actions : List TxnAction)
      → any (is_foreign sh tools) actions ≡ false
      → every (is_safe current) actions ≡ true
      → All CanRun actions
  unfolding any every
  every-CanRun current [] f s = tt
  every-CanRun current (a ∷ rest) f s =
      let (fa, fs) = or_false _ _ f in
      let (sa, ss) = and_true _ _ s in
      (safe-CanRun current a fa sa, every-CanRun current rest fs ss)

  validated-valid :
      (tx : Transaction) (r : List Rule × Option String × H)
      → (validated sh tools tx r).0.valid ≡ true
      → (validate_tx tx r.0).valid ≡ true
  validated-valid tx (rules, none, h) e = e
  validated-valid tx (rules, some x, h) e = cc

  -- Of a transaction that the iptables backend finds valid, the rule of each action, where it has
  -- one, is written as arguments of the command: none of the errors of the translation comes up.
  pub validate-CanRun :
      (tx : Transaction) (h : H) → (validate sh tools tx h).0.valid ≡ true → All CanRun tx.actions
  unfolding validate
  validate-CanRun tx h v = elim (Bool-cases (any (is_foreign sh tools) tx.actions)) [
    | inl e ↦ absurd (refused_never (rw e at v))
    | inr e ↦
        let w : (validated sh tools tx (list_rules sh tools h)).0.valid ≡ true = rw e at v in
        let current = (list_rules sh tools h).0 in
        every-CanRun current tx.actions e
          (sym (validate_tx-every tx current) ∙ validated-valid tx (list_rules sh tools h) w)
  ]

  -- A delete without a rule passes the static checks of a transaction, and the backend refuses to
  -- apply it without running a command.
  pub apply_action-delete_without_rule :
      (a : TxnAction) (h : H)
      → a.op ≡ "delete"
      → a.rule ≡ none
      → (action_faults a ≡ [])
        × ((apply_action sh tools a h).0 ≢ none)
        × ((apply_action sh tools a h).1 ≡ h)
  unfolding action_faults apply_action
  apply_action-delete_without_rule a h o r = rw (o, r) (refl, (λ e. cc), refl)
