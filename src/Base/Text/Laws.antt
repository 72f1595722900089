-- ===== src/Base/Text/Laws.antt =====
-- Laws of the text functions: separators, replacement and decimal numbers.
use Prim.Native.Char.{Char, code}
use fyrwall.Base.{
  subst, sym, ℕ, ◌+◌, ◌*◌, ◌-◌, String, ◌≡◌, ◌≢◌, refl, Bool, true, false, ◌&&◌, ◌||◌, Option, none,
  some, str_eq, eq_iff, arith, ◌==◌, leb, Option-cases, Bool-cases, inl, inr,
}
use fyrwall.Base.Text.{extend, cut, contains, replace_all, digits, unsigned, atoi}

pub cut-none : (sep : ℕ) (s : String) → contains sep s ≡ false → cut sep s ≡ none
unfolding contains cut
cut-none sep String.[] h = refl
cut-none sep (String.◌∷◌ c s) h = ground (arith, cut-none sep s)

abbrev pub held : ℕ → ℕ → String → Option (String × String) → Bool
held x sep s none = contains x s
held x sep s (some (a, b)) = contains x a || sep == x || contains x b

held-extend :
    (x sep : ℕ) (c : Char) (s : String) (o : Option (String × String))
    → contains x s ≡ held x sep s o
    → contains x (String.◌∷◌ c s) ≡ held x sep (String.◌∷◌ c s) (extend c o)
unfolding contains
held-extend x sep c s none h = refl
held-extend x sep c s (some (a, b)) h = rw h (ground arith)

-- A text holds what the two parts beside its first separator hold, and the separator.
pub contains-cut : (x sep : ℕ) (s : String) → contains x s ≡ held x sep s (cut sep s)
unfolding cut
contains-cut x sep String.[] = refl
contains-cut x sep (String.◌∷◌ c s) = elim (Bool-cases (code c == sep)) [
  | inl here ↦ rw here (unfold contains in ground arith)
  | inr there ↦ rw there (held-extend x sep c s (cut sep s) (contains-cut x sep s))
]

pub replace_all-lacks :
    (x : ℕ) (y : Char) (s : String) → contains x s ≡ false → replace_all x y s ≡ s
unfolding contains replace_all
replace_all-lacks x y String.[] h = refl
replace_all-lacks x y (String.◌∷◌ c s) h = ground (arith, replace_all-lacks x y s)

-- a number holds no character but digits and a sign in front
digits-lacks :
    (x n : ℕ) (s : String) (v : ℕ)
    → (leb b'0' x && leb x b'9') ≡ false
    → digits n s ≡ some v
    → contains x s ≡ false
unfolding contains digits
digits-lacks x n String.[] v h e = refl
digits-lacks x n (String.◌∷◌ c s) v h e =
    ground (arith, digits-lacks x (n * 10 + (code c - b'0')) s v)

unsigned-lacks :
    (x : ℕ) (s : String) (v : ℕ)
    → (leb b'0' x && leb x b'9') ≡ false
    → unsigned s ≡ some v
    → contains x s ≡ false
unfolding unsigned
unsigned-lacks x String.[] v h e = cc
unsigned-lacks x (String.◌∷◌ c s) v h e = digits-lacks x 0 (String.◌∷◌ c s) v h e

-- A text that `strconv.Atoi` accepts holds no colon.
pub atoi-no_colon : (s : String) → (atoi s).ok ≡ true → contains b':' s ≡ false
unfolding atoi contains
atoi-no_colon String.[] h = refl
atoi-no_colon (String.◌∷◌ c s) h = elim (Option-cases (unsigned s)) [
  | inl miss ↦ elim (Option-cases (unsigned (String.◌∷◌ c s))) [
    | inl never ↦ ground arith
    | inr all ↦ unsigned-lacks b':' (String.◌∷◌ c s) all.0 refl all.1
  ]
  | inr hit ↦ elim (Option-cases (unsigned (String.◌∷◌ c s))) [
    | inl never ↦ ground (arith, unsigned-lacks b':' s hit.0 refl hit.1)
    | inr all ↦ unsigned-lacks b':' (String.◌∷◌ c s) all.0 refl all.1
  ]
]

abbrev pub replace_right : Option (String × String) → Option (String × String)
replace_right none = none
replace_right (some (a, b)) = some (a, replace_all b':' "-" b)

replace_right-extend :
    (c : Char) (o : Option (String × String))
    → extend c (replace_right o) ≡ replace_right (extend c o)
replace_right-extend c none = refl
replace_right-extend c (some (a, b)) = refl

-- Cutting at a hyphen, once each colon is a hyphen, cuts a text without a hyphen at its colon.
pub cut-replace_all :
    (s : String)
    → contains b'-' s ≡ false
    → cut b'-' (replace_all b':' "-" s) ≡ replace_right (cut b':' s)
unfolding contains cut replace_all
cut-replace_all String.[] h = refl
cut-replace_all (String.◌∷◌ c s) h = elim (Bool-cases (code c == b':')) [
  | inl here ↦ rw here
  | inr there ↦ rw there (elim (Bool-cases (code c == b'-')) [
    | inl hyphen ↦ ground arith
    | inr other ↦ rw (other, cut-replace_all s (ground arith)) (replace_right-extend c (cut b':' s))
  ])
]

-- Texts that the test tells apart are different.
pub ne_of_test : (s t : String) → str_eq s t ≡ false → s ≢ t
ne_of_test s t h e = cc (h, (eq_iff s t).1 e)

-- A proof of P for a text that is a given one, and for one that is not.
module _ {ℓ} (P : String → Type ℓ) (a b : String) where
  pub one_or_other : (a ≡ b → P b) → (str_eq a b ≡ false → P a) → P a
  one_or_other yes_b no_b = elim (Bool-cases (str_eq a b)) [
    | inl e ↦ let q = (eq_iff a b).0 e in subst P (sym q) (yes_b q)
    | inr e ↦ no_b e
  ]

pub test_of_ne : (s t : String) → s ≢ t → str_eq s t ≡ false
test_of_ne s t d = elim (Bool-cases (str_eq s t)) [
  | inl e ↦ absurd (d ((eq_iff s t).0 e))
  | inr e ↦ e
]
