-- ===== src/Firewall/Iptables/Arguments/RoundTrip.antt =====
-- internal/firewall/iptables: the parser on the arguments made of a rule.
use text.Mathlib.Text.{◌==◌}
use fyrwall.Base.{
  ℕ, String, ◌≡◌, ◌≢◌, refl, ap, subst, ◌∙◌, Bool, true, false, ◌⊎◌, inl, inr, Option, none, some,
  List, [], ◌∷◌, ◌++◌, arith, if◌then◌else◌, Bool-cases, some_injective,
}
use fyrwall.Base.Text.Laws.{one_or_other}
use fyrwall.Base.Text.Fold.{upper_is}
use fyrwall.Firewall.Rules.{Rule}
use fyrwall.Firewall.Lines.{read, passed, line_of}
use fyrwall.Firewall.Iptables.Parser.{
  Reading, read_options, takes_value, case_of, action_of, parse_tokens, blank, line_in, with_action,
  chain_to_direction,
}
use fyrwall.Firewall.Iptables.Arguments.{
  ArgsError, rule_to_args, match_args, args_for, target_of, direction_to_chain,
}
use fyrwall.Firewall.Iptables.Arguments.Options.{as_read, after_matches, read_matches}
use fyrwall.Firewall.Iptables.Arguments.{unsupported_op, unsupported_direction}

-- An option that takes no value is skipped.
skip_option :
    (st : Reading) (o : String) (rest : List String)
    → takes_value o ≡ false
    → read_options st (o ∷ rest) ≡ read_options st rest
unfolding read_options
skip_option st o [] h = refl
skip_option st o (v ∷ rest) h = rw h

not_nil : (xs : List String) (y : String) (ys : List String) → xs ++ y ∷ ys ≢ []
not_nil [] y ys h = cc
not_nil (x ∷ xs) y ys h = cc

-- deny and drop are one target
abbrev pub verdict : String → String
verdict a = if a == "deny" then "drop" else a

abbrev Targets : String → String → Type 0
Targets t a = target_of a ≡ some t → action_of t ≡ some (verdict a)

action_of-target_of : (a t : String) → Targets t a
unfolding action_of target_of
action_of-target_of a t =
    let known = λ (x v : String) (k : action_of x ≡ some v) (h : some x ≡ some t).
      subst (λ y. action_of y ≡ some v) (some_injective x t h) k in
    one_or_other (Targets t) a "allow" (λ _. known "ACCEPT" "allow" refl)
      (λ e1.
        one_or_other (Targets t) a "reject" (λ _. known "REJECT" "reject" refl)
          (λ e2.
            one_or_other (Targets t) a "deny" (λ _. known "DROP" "drop" refl)
              (λ e3.
                one_or_other (Targets t) a "drop" (λ _. known "DROP" "drop" refl)
                  (λ e4.
                    one_or_other (Targets t) a "log" (λ _. known "LOG" "log" refl)
                      (λ e5. λ h. ground (arith, h))))))

abbrev Chains : String → Type 0
Chains d =
    (direction_to_chain d == "") ≡ false
    → (chain_to_direction (direction_to_chain d) ≡ d) × ((d == "") ≡ false)

known_direction : (d : String) → Chains d
unfolding direction_to_chain chain_to_direction upper_is
known_direction d =
    one_or_other Chains d "in" (λ _ _. (refl, refl))
      (λ e1.
        one_or_other Chains d "out" (λ _ _. (refl, refl))
          (λ e2.
            one_or_other Chains d "forward" (λ _ _. (refl, refl))
              (λ e3. λ h. cc (rw (e1, e2, e3) at h))))

-- the two forms of the arguments
abbrev with_op : Bool → Rule → String → List String
with_op true r t = "-I" ∷ direction_to_chain r.direction ∷ "1" ∷ (match_args r ++ "-j" ∷ t ∷ [])
with_op false r t = "-D" ∷ direction_to_chain r.direction ∷ (match_args r ++ "-j" ∷ t ∷ [])

-- What successful arguments are.
abbrev Written : Rule → String → List String → Type 0
Written r op args =
    ((direction_to_chain r.direction == "") ≡ false)
    × ((t : String) × (target_of r.action ≡ some t) × (with_op (op == "add") r t ≡ args))

op_args :
    (r : Rule) (op t : String)
    → with_op (op == "add") r t
      ≡ (if op == "add"
          then "-I" ∷ direction_to_chain r.direction ∷ "1" ∷ []
          else "-D" ∷ direction_to_chain r.direction ∷ [])
        ++ (match_args r ++ ("-j" ∷ t ∷ []))
op_args r op t = elim (Bool-cases (op == "add")) [ inl e ↦ rw e | inr e ↦ rw e ]

inr_injective : (x y : List String) → ◌≡◌ {A = ArgsError ⊎ List String} (inr x) (inr y) → x ≡ y
inr_injective x y h = cc

inverted :
    (r : Rule) (op : String) (b c : Bool) (o : Option String) (args : List String)
    → (direction_to_chain r.direction == "") ≡ c
    → target_of r.action ≡ o
    → ◌≡◌ {A = ArgsError ⊎ List String}
        (if b
          then inl (unsupported_op op)
          else if c
          then inl (unsupported_direction r.direction)
          else args_for r op (direction_to_chain r.direction) o)
        (inr args)
    → Written r op args
inverted r op true c o args hc ho h = cc
inverted r op false true o args hc ho h = cc
inverted r op false false none args hc ho h = cc
inverted r op false false (some t) args hc ho h =
    (hc, (t, ho, op_args r op t ∙ inr_injective _ args h))

module _ (uuid : ℕ → String) (now : ℕ) (family : String) (priority : ℕ) (line : String) where
  -- the rule that is read back
  abbrev pub rule_read : Rule → Rule
  rule_read r = record (as_read (blank (uuid priority) now family r.direction priority line) r) {
    action = verdict r.action;
  }

  parse_options :
      (a chain : String) (opts : List String)
      → opts ≢ []
      → parse_tokens uuid now family priority line (a ∷ chain ∷ opts) ≡ (
          let dir = chain_to_direction chain in
          if dir == ""
          then passed
          else line_in (blank (uuid priority) now family dir priority line) opts)
  unfolding parse_tokens
  parse_options a chain [] h = absurd (h refl)
  parse_options a chain (o ∷ rest) h = refl

  -- the line that is read from the arguments with this target
  parse_args :
      (a t : String) (r : Rule) (opts : List String)
      → (direction_to_chain r.direction == "") ≡ false
      → target_of r.action ≡ some t
      → opts ≢ []
      → ((st : Reading) → read_options st opts ≡ read_options st (match_args r ++ "-j" ∷ t ∷ []))
      → parse_tokens uuid now family priority line (a ∷ direction_to_chain r.direction ∷ opts)
        ≡ read (rule_read r)
  unfolding read_options
  parse_args a t r opts hd ht ne same =
      let k = known_direction r.direction hd in
      let start = blank (uuid priority) now family r.direction priority line in
      let st0 : Reading = record { rule = start; target = "" } in
      let dir = chain_to_direction (direction_to_chain r.direction) in
      let named : dir ≡ r.direction = k.0 in
      let outcome = λ (d : String).
        (if d == ""
          then passed
          else line_in (blank (uuid priority) now family d priority line) opts) in
      let final = after_matches r st0 in
      let reading = same st0 ∙ read_matches r st0 ("-j" ∷ t ∷ []) in
      parse_options a (direction_to_chain r.direction) opts ne
      ∙ ap outcome named
      ∙ rw (k.1, reading)
          (ap (λ v. line_of (with_action final.rule v)) (action_of-target_of r.action t ht))

  read_with_op :
      (b : Bool) (r : Rule) (t : String)
      → (direction_to_chain r.direction == "") ≡ false
      → target_of r.action ≡ some t
      → parse_tokens uuid now family priority line (with_op b r t) ≡ read (rule_read r)
  unfolding case_of
  read_with_op true r t hd ht =
      parse_args "-I" t r ("1" ∷ (match_args r ++ "-j" ∷ t ∷ [])) hd ht (λ e. cc (e))
        (λ st. skip_option st "1" (match_args r ++ "-j" ∷ t ∷ []) refl)
  read_with_op false r t hd ht =
      parse_args "-D" t r (match_args r ++ "-j" ∷ t ∷ []) hd ht
        (not_nil (match_args r) "-j" (t ∷ [])) (λ st. refl)

  -- The arguments that a rule is added or deleted with are read by the parser of iptables-save as
  -- that rule: direction, addresses, interfaces and state as they were, denied as dropped, the
  -- ports as `port_read` writes them, and the identifier in front of the comment.
  pub parse_tokens-rule_to_args :
      (r : Rule) (op : String) (args : List String)
      → rule_to_args r op ≡ inr args
      → parse_tokens uuid now family priority line args ≡ read (rule_read r)
  unfolding rule_to_args
  parse_tokens-rule_to_args r op args h =
      let (hd, (t, ht, e)) = inverted r op _ _ _ args refl refl h in
      subst (λ tokens. parse_tokens uuid now family priority line tokens ≡ read (rule_read r)) e
        (read_with_op (op == "add") r t hd ht)
