-- ===== src/Firewall/Iptables/Arguments/Options.antt =====
-- internal/firewall/iptables: how the parser reads the options of a rule, one by one.
use text.Mathlib.Text.{◌==◌}
use text.Mathlib.TextLemmas.{nil-append, cons-append}
use mathlib.Core.List.{append_assoc}
use fyrwall.Base.{
  String, ◌≡◌, refl, sym, ap, ◌∙◌, Bool, true, false, not, ◌&&◌, inl, inr, some, List, [], ◌∷◌,
  ◌++◌, arith, eq_iff, if◌then◌else◌, Bool-cases,
}
use fyrwall.Base.Text.{contains, join}
use fyrwall.Base.Text.Fold.{lower_is, trim_prefix, after_prefix, or_whole}
use fyrwall.Firewall.Rules.{Rule}
use fyrwall.Firewall.Iptables.Parser.{
  Reading, read_options, takes_value, set_option, proto_of, normalize_port, normalize_multi_port,
}
use fyrwall.Firewall.Iptables.Arguments.{
  match_args, port_match, protocol_option, comment_text, normalize_port_arg,
}

after-append : (t s : String) → after_prefix (Prim.Native.String.◌++◌ t s) t ≡ some s
after-append String.[] s = ap some (nil-append s)
after-append (String.◌∷◌ c t) s =
    ap (λ u. after_prefix u (String.◌∷◌ c t)) (cons-append c t s) ∙ ground (arith, after-append t s)

pub trim_prefix-append : (t s : String) → trim_prefix (Prim.Native.String.◌++◌ t s) t ≡ s
unfolding trim_prefix
trim_prefix-append t s = ap (or_whole (Prim.Native.String.◌++◌ t s)) (after-append t s)

-- An option with its value is read before what follows.
module _ (st : Reading) (o v : String) (rest : List String) (h : takes_value o ≡ true) where
  read_option : read_options st (o ∷ v ∷ rest) ≡ read_options (set_option o v st) rest
  unfolding read_options
  read_option = rw h

-- A setting of one field, with the options that are written for it where a test holds.
module _ (field : Reading → String) (put : String → Reading → Reading)
    (keeps : (st : Reading) → put (field st) st ≡ st) where
  read_if :
      (b : Bool) (v : String) (st : Reading) (opts rest : List String)
      → read_options st (opts ++ rest) ≡ read_options (put v st) rest
      → read_options st ((if b then opts else []) ++ rest)
        ≡ read_options (put (if b then v else field st) st) rest
  read_if true v st opts rest h = h
  read_if false v st opts rest h = ap (λ s. read_options s rest) (sym (keeps st))

  read_unless :
      (b : Bool) (v : String) (st : Reading) (opts rest : List String)
      → read_options st (opts ++ rest) ≡ read_options (put v st) rest
      → read_options st ((if b then [] else opts) ++ rest)
        ≡ read_options (put (if b then field st else v) st) rest
  read_unless true v st opts rest h = ap (λ s. read_options s rest) (sym (keeps st))
  read_unless false v st opts rest h = h

-- the port as it is read back
abbrev pub port_read : String → String
port_read p =
    let q = normalize_port_arg p in
    if contains b',' q then normalize_multi_port q else normalize_port q

-- the protocol that is read back
abbrev pub protocol_read : String → String → String
protocol_read old p = if p == "any" then old else if p == "icmp" then "icmp" else proto_of p

module _ (st : Reading) (rest : List String) where
  read-port_match :
      (p : String)
      → (read_options st (port_match "source" p ++ rest)
          ≡ read_options (record st { rule = record st.rule { source_port = port_read p } }) rest)
        × (read_options st (port_match "destination" p ++ rest)
            ≡ read_options
                (record st { rule = record st.rule { destination_port = port_read p } })
                rest)
  unfolding read_options port_match
  read-port_match p = elim (Bool-cases (contains b',' (normalize_port_arg p))) [
    | inl e ↦ (rw e, rw e)
    | inr e ↦ (rw e, rw e)
  ]

  read-protocol :
      (p : String)
      → read_options st (protocol_option p ++ rest)
        ≡ read_options
            (record st { rule = record st.rule { protocol = protocol_read st.rule.protocol p } })
            rest
  unfolding read_options proto_of lower_is
  read-protocol p = elim (Bool-cases (p == "any")) [
    | inl e ↦ rw ((eq_iff p "any").0 e)
    | inr e ↦ elim (Bool-cases (p == "icmp")) [
      | inl i ↦ rw ((eq_iff p "icmp").0 i)
      | inr i ↦ rw (e, i)
    ]
  ]

abbrev pub is_address : String → Bool
is_address a = not (a == "") && not (a == "any")

-- an address that is unset, or any, is not written
abbrev pub address_read : String → String → String
address_read old a = if is_address a then a else old

abbrev pub unless_empty : String → String → String → String
unless_empty old s t = if s == "" then old else t

-- the comment that is read back carries the identifier
abbrev pub comment_read : Rule → String
comment_read r =
    if r.comment == "" then join "" (r.id ∷ []) else join "" (r.id ∷ " " ∷ r.comment ∷ [])

comment-trimmed : (r : Rule) → trim_prefix (comment_text r) "FYRWALL:RULE:" ≡ comment_read r
unfolding join
comment-trimmed r = elim (Bool-cases (r.comment == "")) [
  | inl e ↦ rw e (trim_prefix-append "FYRWALL:RULE:" _ ∙ nil-append r.id)
  | inr e ↦ rw e (trim_prefix-append "FYRWALL:RULE:" _ ∙ nil-append _)
]

-- The rule that is read back, from the rule that the parser starts with.
abbrev pub as_read : Rule → Rule → Rule
as_read start r = record start {
  protocol = protocol_read start.protocol r.protocol;
  source = address_read start.source r.source;
  destination = address_read start.destination r.destination;
  source_port = unless_empty start.source_port r.source_port (port_read r.source_port);
  destination_port =
      unless_empty start.destination_port r.destination_port (port_read r.destination_port);
  interface_in = unless_empty start.interface_in r.interface_in r.interface_in;
  interface_out = unless_empty start.interface_out r.interface_out r.interface_out;
  state = unless_empty start.state r.state r.state;
  comment = comment_read r;
}

module _ (v : String) (st : Reading) where
  abbrev put_source : Reading
  put_source = record st { rule = record st.rule { source = v } }

  abbrev put_destination : Reading
  put_destination = record st { rule = record st.rule { destination = v } }

  abbrev put_source_port : Reading
  put_source_port = record st { rule = record st.rule { source_port = v } }

  abbrev put_destination_port : Reading
  put_destination_port = record st { rule = record st.rule { destination_port = v } }

  abbrev put_interface_in : Reading
  put_interface_in = record st { rule = record st.rule { interface_in = v } }

  abbrev put_interface_out : Reading
  put_interface_out = record st { rule = record st.rule { interface_out = v } }

  abbrev put_state : Reading
  put_state = record st { rule = record st.rule { state = v } }

  abbrev put_protocol : Reading
  put_protocol = record st { rule = record st.rule { protocol = v } }

  abbrev put_comment : Reading
  put_comment = record st { rule = record st.rule { comment = v } }

-- the reading after all options
abbrev pub after_matches : Rule → Reading → Reading
after_matches r st = record st { rule = as_read st.rule r }

pub read_matches :
    (r : Rule) (st : Reading) (rest : List String)
    → read_options st (match_args r ++ rest) ≡ read_options (after_matches r st) rest
unfolding match_args read_options
read_matches r st rest = simp append_assoc (
    read-protocol st _ r.protocol
    ∙ read_if (λ s. s.rule.source) put_source (λ s. refl) (is_address r.source) r.source _ _ _ refl
    ∙ read_if (λ s. s.rule.destination) put_destination (λ s. refl) (is_address r.destination)
        r.destination _ _ _ refl
    ∙ read_unless (λ s. s.rule.source_port) put_source_port (λ s. refl) (r.source_port == "")
        (port_read r.source_port) _ _ _ (read-port_match _ _ r.source_port).0
    ∙ read_unless (λ s. s.rule.destination_port) put_destination_port (λ s. refl)
        (r.destination_port == "") (port_read r.destination_port) _ _ _
        (read-port_match _ _ r.destination_port).1
    ∙ read_unless (λ s. s.rule.interface_in) put_interface_in (λ s. refl) (r.interface_in == "")
        r.interface_in _ _ _ refl
    ∙ read_unless (λ s. s.rule.interface_out) put_interface_out (λ s. refl) (r.interface_out == "")
        r.interface_out _ _ _ refl
    ∙ read_unless (λ s. s.rule.state) put_state (λ s. refl) (r.state == "") r.state _ _ _ refl
    ∙ ap (λ c. read_options (put_comment c (after_matches r st)) rest) (comment-trimmed r))
