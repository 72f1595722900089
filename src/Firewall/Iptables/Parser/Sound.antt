-- ===== src/Firewall/Iptables/Parser/Sound.antt =====
-- internal/firewall/iptables/parser.go: the rules that come out of any text.
use text.Mathlib.Text.{◌==◌}
use fyrwall.Base.{
  ℕ, suc, ◌≤◌, String, ◌≡◌, refl, sym, ap, subst, ◌∙◌, false, ◌⊎◌, inl, inr, Option, none, some,
  List, [], ◌∷◌, arith, Bool-cases, either, some_injective,
}
use fyrwall.Base.Int.{ℤ, pos}
use fyrwall.Base.Text.{split, trim_space}
use fyrwall.Base.Text.Fold.{upper_is, has_prefix}
use fyrwall.Firewall.Rules.{Rule}
use fyrwall.Firewall.Lines.{Line, passed, unread, read, line_of, and_line}
use fyrwall.Firewall.Iptables.Parser.{
  Reading, read_options, takes_value, set_option, case_of, Case, protocol, assign, action_of,
  with_action, blank, chain_to_direction, parse_tokens, parse_line, parse_lines, parse, tokenize,
}

-- what the options leave alone: direction, family, backend and priority
abbrev frame : Rule → String × (String × (String × ℤ))
frame r = (r.direction, (r.family, (r.backend, r.priority)))

frame-assign : (c : Case) (v : String) (st : Reading) → frame (assign c v st).rule ≡ frame st.rule
frame-assign protocol v st = refl
frame-assign _ v st = refl

frame-read_options :
    (st : Reading) (opts : List String) → frame (read_options st opts).rule ≡ frame st.rule
unfolding read_options
frame-read_options st [] = refl
frame-read_options st (o ∷ []) = refl
frame-read_options st (o ∷ v ∷ rest) =
    either (λ (u : Reading). frame u.rule ≡ frame st.rule) (takes_value o)
      (frame-read_options (set_option o v st) rest ∙ frame-assign (case_of o) v st)
      (frame-read_options st (v ∷ rest))

abbrev pub IsVerdict : String → Type 0
IsVerdict a = (a ≡ "allow") ⊎ ((a ≡ "drop") ⊎ ((a ≡ "reject") ⊎ (a ≡ "log")))

abbrev pub IsDirection : String → Type 0
IsDirection d = (d ≡ "in") ⊎ ((d ≡ "out") ⊎ (d ≡ "forward"))

-- A rule that the parser may give for a line at this place of a family.
abbrev pub IsListed : String → ℕ → Rule → Type 0
IsListed family priority r =
    IsDirection r.direction
    × (IsVerdict r.action
        × ((r.family ≡ family) × ((r.backend ≡ "iptables") × (r.priority ≡ pos priority))))

action_of-IsVerdict : (target a : String) → action_of target ≡ some a → IsVerdict a
unfolding action_of
action_of-IsVerdict target a =
    let P = λ (o : Option String). o ≡ some a → IsVerdict a in
    either P (target == "ACCEPT") (λ h. inl (some_injective a "allow" (sym h)))
      (either P (target == "DROP") (λ h. inr (inl (some_injective a "drop" (sym h))))
        (either P (target == "REJECT") (λ h. inr (inr (inl (some_injective a "reject" (sym h)))))
          (either P (target == "LOG") (λ h. inr (inr (inr (some_injective a "log" (sym h)))))
            (λ h. cc))))

chain_to_direction-IsDirection :
    (chain : String)
    → (chain_to_direction chain == "") ≡ false
    → IsDirection (chain_to_direction chain)
unfolding chain_to_direction
chain_to_direction-IsDirection chain =
    let P = λ (d : String). (d == "") ≡ false → IsDirection d in
    either P (upper_is chain "INPUT") (λ _. inl refl)
      (either P (upper_is chain "OUTPUT") (λ _. inr (inl refl))
        (either P (upper_is chain "FORWARD") (λ _. inr (inr refl)) (λ h. cc)))

-- The line gives a rule only if it is one that may be listed.
abbrev Lists : String → ℕ → Line → Type 0
Lists family priority passed = Unit
Lists family priority unread = Unit
Lists family priority (read r) = IsListed family priority r

module _ (uuid : ℕ → String) (now : ℕ) (family : String) where
  with_action-Lists :
      (priority : ℕ) (start r : Rule) (o : Option String)
      → frame r ≡ (start.direction, (family, ("iptables", pos priority)))
      → IsDirection start.direction
      → ((a : String) → o ≡ some a → IsVerdict a)
      → Lists family priority (line_of (with_action r o))
  with_action-Lists priority start r none h d v = tt
  with_action-Lists priority start r (some a) h d v = (
    subst IsDirection (sym (ap (λ f. f.0) h)) d,
    (v a refl, (ap (λ f. f.1.0) h, (ap (λ f. f.1.1.0) h, ap (λ f. f.1.1.1) h))),
  )

  parse_tokens-Lists :
      (priority : ℕ) (line : String) (tokens : List String)
      → Lists family priority (parse_tokens uuid now family priority line tokens)
  unfolding parse_tokens
  parse_tokens-Lists priority line [] = tt
  parse_tokens-Lists priority line (a ∷ []) = tt
  parse_tokens-Lists priority line (a ∷ chain ∷ []) = tt
  parse_tokens-Lists priority line (a ∷ chain ∷ o ∷ rest) =
      elim (Bool-cases (chain_to_direction chain == "")) [
        | inl e ↦ rw e tt
        | inr e ↦ rw e (
            let start = blank (uuid priority) now family (chain_to_direction chain) priority line in
            let end = read_options (record { rule = start; target = "" }) (o ∷ rest) in
            with_action-Lists priority start end.rule (action_of end.target)
              (frame-read_options (record { rule = start; target = "" }) (o ∷ rest))
              (chain_to_direction-IsDirection chain e) (action_of-IsVerdict end.target))
      ]

  parse_line-Lists :
      (priority : ℕ) (raw : String)
      → Lists family priority (parse_line uuid now family priority raw)
  unfolding parse_line
  parse_line-Lists priority raw = elim (Bool-cases (has_prefix (trim_space raw) "-A ")) [
    | inl e ↦ rw e (parse_tokens-Lists priority (trim_space raw) (tokenize (trim_space raw)))
    | inr e ↦ rw e tt
  ]

  -- the rules of a list of which each may be listed, at ascending places from a first one
  abbrev pub AreListed : ℕ → List Rule → Type 0
  AreListed from [] = Unit
  AreListed from (r ∷ rs) = (p : ℕ) × (from ≤ p) × IsListed family p r × AreListed (suc p) rs

  AreListed-later : (from p : ℕ) (rs : List Rule) → from ≤ p → AreListed p rs → AreListed from rs
  AreListed-later from p [] h a = tt
  AreListed-later from p (r ∷ rs) h (q, pq, l, a) = (q, omega (arith, pq), l, a)

  and_line-AreListed :
      (priority : ℕ) (l : Line) (rest : ℕ → List Rule)
      → Lists family priority l
      → ((n : ℕ) → AreListed n (rest n))
      → AreListed priority (and_line priority l rest)
  and_line-AreListed priority passed rest h f = f priority
  and_line-AreListed priority unread rest h f =
      AreListed-later priority (suc priority) (rest (suc priority)) (omega arith) (f (suc priority))
  and_line-AreListed priority (read r) rest h f = (priority, omega arith, h, f (suc priority))

  parse_lines-AreListed :
      (raws : List String) (n : ℕ) → AreListed n (parse_lines uuid now family raws n)
  unfolding parse_lines
  parse_lines-AreListed [] n = tt
  parse_lines-AreListed (raw ∷ raws) n =
      and_line-AreListed n (parse_line uuid now family n raw) (parse_lines uuid now family raws)
        (parse_line-Lists n raw) (parse_lines-AreListed raws)

  -- Whatever the text, the rules that are read from it have one of the three directions, one of
  -- the four verdicts, the family of the listing and the backend's name, and their priorities
  -- ascend from 0, no two alike.
  pub parse-AreListed : (content : String) → AreListed 0 (parse uuid now family content)
  unfolding parse
  parse-AreListed content = parse_lines-AreListed (split 10 content) 0
