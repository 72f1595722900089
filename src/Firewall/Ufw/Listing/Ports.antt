-- ===== src/Firewall/Ufw/Listing/Ports.antt =====
-- internal/firewall/ufw/ufw.go: the ports of the rules that are listed.
use text.Mathlib.Text.{◌==◌}
use fyrwall.Base.{
  ℕ, String, ◌≡◌, refl, sym, ap, ◌∙◌, not, ◌&&◌, suc, either, Option, none, some, List, [], ◌∷◌,
  All,
}
use fyrwall.Base.Text.{split, cut, trim_space, atoi, Parsed, join}
use fyrwall.Base.Text.Fold.{has_prefix, fields, upper_is}
use fyrwall.Firewall.Rules.{Rule}
use fyrwall.Firewall.Lines.{Line, passed, unread, read, and_line}
use fyrwall.Firewall.Ufw.Listing.{
  split_port_spec, find_verb, with_verb, read_token, read_tokens, comment_in, default_family,
  numbered, rule_with, with_fields, with_number, parse_numbered_line, parse_numbered_lines,
  parse_status_numbered, with_comment, before_close, split_at_slash, direction_of,
}

abbrev ports : Rule → String × String
ports r = (r.source_port, r.destination_port)

-- A rule whose source port is its destination port.
abbrev pub IsDoubled : Rule → Type 0
IsDoubled r = r.source_port ≡ r.destination_port

ports-with_verb : (v : String) (r : Rule) → ports (with_verb v r) ≡ ports r
ports-with_verb v r =
    let P = λ (u : Rule). ports u ≡ ports r in
    either P (upper_is v "ALLOW") refl (
      either P (upper_is v "DENY") refl
        (either P (upper_is v "REJECT") refl (either P (upper_is v "LIMIT") refl refl)))

ports-read_tokens : (ts : List String) (r : Rule) → ports (read_tokens ts r) ≡ ports r
unfolding read_tokens read_token
ports-read_tokens [] r = refl
ports-read_tokens (t ∷ ts) r =
    ports-read_tokens ts (read_token t r)
    ∙ either (λ (u : Rule). ports u ≡ ports r) (t == "(v6)") refl
        (either (λ (u : Rule). ports u ≡ ports r)
          (not (t == "Anywhere") && not (has_prefix t "(") && r.source == "") refl refl)

ports-with_comment : (r : Rule) (o : Option String) → ports (with_comment r o) ≡ ports r
ports-with_comment r none = refl
ports-with_comment r (some t) = refl

ports-comment_in : (r : Rule) (o : Option (String × String)) → ports (comment_in r o) ≡ ports r
ports-comment_in r none = refl
ports-comment_in r (some (a, b)) = ports-with_comment r (before_close b)

ports-default_family : (r : Rule) → ports (default_family r) ≡ ports r
ports-default_family r = either (λ (u : Rule). ports u ≡ ports r) (r.family == "") refl refl

split_at_slash_doubled :
    (spec : String) (o : Option (String × String))
    → (split_at_slash spec o).1 ≡ (split_at_slash spec o).2
split_at_slash_doubled spec none = refl
split_at_slash_doubled spec (some (p, t)) = refl

split_port_spec_doubled : (spec : String) → (split_port_spec spec).1 ≡ (split_port_spec spec).2
unfolding split_port_spec
split_port_spec_doubled spec = split_at_slash_doubled spec (cut b'/' spec)

-- a line that gives a rule gives one whose ports are the same
abbrev Doubled : Line → Type 0
Doubled passed = Unit
Doubled unread = Unit
Doubled (read r) = IsDoubled r

and_line-All :
    (l : Line)
    → Doubled l
    → (n : ℕ) (rest : ℕ → List Rule) → ((k : ℕ) → All IsDoubled (rest k))
    → All IsDoubled (and_line n l rest)
and_line-All passed d n rest h = h n
and_line-All unread d n rest h = h (suc n)
and_line-All (read r) d n rest h = (d, h (suc n))

module _ (uuid : ℕ → String) (now : ℕ) where
  rule_with-Doubled :
      (r : Rule) (spec : String) (o : Option (String × List String))
      → Doubled (rule_with uuid now r spec o)
  unfolding split_port_spec
  rule_with-Doubled r spec none = tt
  rule_with-Doubled r spec (some (v, [])) = tt
  rule_with-Doubled r spec (some (v, tok ∷ rest)) =
      let (protocol, source_port, destination_port) = split_port_spec spec in
      let r1 = record r {
        protocol = protocol;
        source_port = source_port;
        destination_port = destination_port;
      } in
      let r2 = record (with_verb v r1) { direction = direction_of tok } in
      let r3 = read_tokens rest r2 in
      let r4 = comment_in r3 (cut b'(' (join " " rest)) in
      let all =
        ports-default_family r4
        ∙ ports-comment_in r3 (cut b'(' (join " " rest))
        ∙ ports-read_tokens rest r2
        ∙ ports-with_verb v r1 in
      ap (λ p. p.0) all ∙ split_port_spec_doubled spec ∙ sym (ap (λ p. p.1) all)

  with_fields-Doubled :
      (priority : ℕ) (n : Parsed) (fs : List String) → Doubled (with_fields uuid now priority n fs)
  with_fields-Doubled priority n [] = tt
  with_fields-Doubled priority n (a ∷ []) = tt
  with_fields-Doubled priority n (a ∷ b ∷ []) = tt
  with_fields-Doubled priority n (a ∷ b ∷ c ∷ rest) =
      rule_with-Doubled (numbered uuid now priority n) a (find_verb (b ∷ c ∷ rest))

  with_number-Doubled :
      (priority : ℕ) (o : Option (String × String)) → Doubled (with_number uuid now priority o)
  with_number-Doubled priority none = tt
  with_number-Doubled priority (some (String.[], b)) = tt
  with_number-Doubled priority (some (String.◌∷◌ c a, b)) =
      either Doubled (atoi (trim_space a)).ok
        (with_fields-Doubled priority (atoi (trim_space a)) (fields b)) tt

  line-Doubled : (priority : ℕ) (raw : String) → Doubled (parse_numbered_line uuid now priority raw)
  unfolding parse_numbered_line
  line-Doubled priority raw =
      either Doubled (has_prefix (trim_space raw) "[")
        (with_number-Doubled priority (cut b']' (trim_space raw))) tt

  lines-Doubled :
      (raws : List String) (n : ℕ) → All IsDoubled (parse_numbered_lines uuid now raws n)
  unfolding parse_numbered_lines
  lines-Doubled [] n = tt
  lines-Doubled (raw ∷ raws) n =
      and_line-All (parse_numbered_line uuid now n raw) (line-Doubled n raw) n
        (parse_numbered_lines uuid now raws) (lines-Doubled raws)

  -- Every rule that is read from the numbered listing has as its source port the text that it has
  -- as its destination port.
  pub parse_status_numbered-IsDoubled :
      (out : String) → All IsDoubled (parse_status_numbered uuid now out)
  unfolding parse_status_numbered
  parse_status_numbered-IsDoubled out = lines-Doubled (split 10 out) 0
