-- ===== src/Base/Text/Split.antt =====
-- Laws of `split` at one separator.
use Prim.Native.Char.{Char, code}
use text.Mathlib.TextLemmas.{nil-append, cons-append}
use fyrwall.Base.{
  ℕ, String, ◌≡◌, refl, ◌∙◌, ap, false, List, [], ◌∷◌, arith, All, ◌==◌, if◌then◌else◌,
}
use fyrwall.Base.Text.{contains, split}

module _ (sep : ℕ) where
  abbrev pub IsPart : String → Type 0
  IsPart p = contains sep p ≡ false

  -- one character in front of the parts of the rest
  abbrev push : Char → List String → List String
  push c [] = "" ∷ []
  push c (p ∷ ps) = if code c == sep then "" ∷ p ∷ ps else String.◌∷◌ c p ∷ ps

  push-All : (c : Char) (ps : List String) → All IsPart ps → All IsPart (push c ps)
  unfolding contains
  push-All c [] h = (refl, tt)
  push-All c (p ∷ ps) (h, hs) = ground (arith, h)

  pub split-All : (s : String) → All IsPart (split sep s)
  unfolding split contains
  split-All String.[] = (refl, tt)
  split-All (String.◌∷◌ c s) = push-All c (split sep s) (split-All s)

  pub split-part : (s : String) → contains sep s ≡ false → split sep s ≡ s ∷ []
  unfolding split contains
  split-part String.[] h = refl
  split-part (String.◌∷◌ c s) h = ap (push c) (split-part s (ground (arith, h))) ∙ ground (arith, h)

  pub split-pair :
      (d : Char) (s t : String)
      → code d ≡ sep
      → contains sep s ≡ false
      → contains sep t ≡ false
      → split sep (Prim.Native.String.◌++◌ s (String.◌∷◌ d t)) ≡ s ∷ t ∷ []
  unfolding split contains
  split-pair d String.[] t e hs ht =
      ap (split sep) (nil-append (String.◌∷◌ d t))
      ∙ ap (push d) (split-part t ht)
      ∙ ground (arith, e)
  split-pair d (String.◌∷◌ c s) t e hs ht =
      ap (split sep) (cons-append c s (String.◌∷◌ d t))
      ∙ ap (push c) (split-pair d s t e (ground (arith, hs)) ht)
      ∙ ground (arith, hs)
