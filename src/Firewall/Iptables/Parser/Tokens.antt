-- ===== src/Firewall/Iptables/Parser/Tokens.antt =====
-- internal/firewall/iptables/parser.go: what `tokenize` makes of words, and of a negation.
use text.Mathlib.TextLemmas.{nil-append, cons-append, append_assoc, append-nil}
use Prim.Native.Char.{Char, code}
use fyrwall.Base.{
  String, ◌≡◌, ◌≢◌, refl, sym, ap, ◌∙◌, Bool, true, false, ◌||◌, List, [], ◌∷◌, All, ◌==◌ as nat_eq,
}
use fyrwall.Base.Text.{contains, join}
use fyrwall.Base.Text.Fold.{flush}
use fyrwall.Firewall.Iptables.Parser.{tokens_from, tokenize, Reading, read_options, case_of}

-- A text without spaces and single quotes.
abbrev pub IsPlain : String → Type 0
IsPlain t = (contains b' ' t ≡ false) × (contains b'\'' t ≡ false)

abbrev pub IsWord : String → Type 0
IsWord t = (t ≢ "") × IsPlain t

not_either : (a b : Bool) → (a || b) ≡ false → (a ≡ false) × (b ≡ false)
not_either true b h = cc
not_either false b h = (refl, h)

-- a character that is neither is written to the token
write_char :
    (c : Char) (cur s : String)
    → nat_eq (code c) b'\'' ≡ false
    → nat_eq (code c) b' ' ≡ false
    → tokens_from false cur (String.◌∷◌ c s)
      ≡ tokens_from false (Prim.Native.String.◌++◌ cur (String.◌∷◌ c "")) s
unfolding tokens_from
write_char c cur s hq hs = rw (hq, hs)

one_more :
    (c : Char) (cur t : String)
    → Prim.Native.String.◌++◌ (Prim.Native.String.◌++◌ cur (String.◌∷◌ c "")) t
      ≡ Prim.Native.String.◌++◌ cur (String.◌∷◌ c t)
one_more c cur t =
    append_assoc cur (String.◌∷◌ c "") t
    ∙ ap (Prim.Native.String.◌++◌ cur) (cons-append c "" t ∙ ap (String.◌∷◌ c) (nil-append t))

tokens_from-append :
    (t cur s : String)
    → IsPlain t
    → tokens_from false cur (Prim.Native.String.◌++◌ t s)
      ≡ tokens_from false (Prim.Native.String.◌++◌ cur t) s
unfolding tokens_from contains
tokens_from-append String.[] cur s h =
    ap (tokens_from false cur) (nil-append s)
    ∙ ap (λ u. tokens_from false u s) (sym (append-nil cur))
tokens_from-append (String.◌∷◌ c t) cur s h =
    ap (tokens_from false cur) (cons-append c t s)
    ∙ write_char c cur (Prim.Native.String.◌++◌ t s) (not_either _ _ h.1).0 (not_either _ _ h.0).0
    ∙ tokens_from-append t (Prim.Native.String.◌++◌ cur (String.◌∷◌ c "")) s
        ((not_either _ _ h.0).1, (not_either _ _ h.1).1)
    ∙ ap (λ u. tokens_from false u s) (one_more c cur t)

join_words :
    (x y : String) (ys : List String)
    → join " " (x ∷ y ∷ ys) ≡ Prim.Native.String.◌++◌ x (String.◌∷◌ " " (join " " (y ∷ ys)))
unfolding join
join_words x y ys =
    ap (Prim.Native.String.◌++◌ x) (
      cons-append " " "" (join " " (y ∷ ys)) ∙ ap (String.◌∷◌ " ") (nil-append (join " " (y ∷ ys))))

flush-word : (x : String) (ts : List String) → x ≢ "" → flush x ts ≡ x ∷ ts
flush-word String.[] ts h = absurd (h refl)
flush-word (String.◌∷◌ c x) ts h = refl

-- A line of words with one space between them, none of them empty or with a space or a single
-- quote, is taken apart into these words.
pub tokenize-join : (words : List String) → All IsWord words → tokenize (join " " words) ≡ words
unfolding tokenize tokens_from join
tokenize-join [] h = refl
tokenize-join (x ∷ []) ((ne, plain), _) =
    ap (tokens_from false "") (sym (append-nil x))
    ∙ tokens_from-append x "" "" plain
    ∙ ap (λ u. flush u []) (nil-append x)
    ∙ flush-word x [] ne
tokenize-join (x ∷ y ∷ ys) ((ne, plain), h) =
    let rest = join " " (y ∷ ys) in
    ap (tokens_from false "") (join_words x y ys)
    ∙ tokens_from-append x "" (String.◌∷◌ " " rest) plain
    ∙ ap (λ u. flush u (tokens_from false "" rest)) (nil-append x)
    ∙ flush-word x (tokens_from false "" rest) ne
    ∙ ap (λ ts. x ∷ ts) (tokenize-join (y ∷ ys) h)

-- The mark of a negated match is passed over: with it, the options behind it are read as without.
pub read_options-negation :
    (st : Reading) (opts : List String) → read_options st ("!" ∷ opts) ≡ read_options st opts
unfolding read_options case_of
read_options-negation st [] = refl
read_options-negation st (o ∷ rest) = refl
