-- ===== src/Base/Text/Fold.antt =====
-- Letters without their case, prefixes and fields of a text. A text that is compared with an
-- ASCII text after `strings.ToUpper` or `strings.ToLower` is compared by codes: of the letters
-- beyond ASCII, only those whose other case is ASCII can matter, and these are written out.
use Prim.Native.Char.{Char, code}
use Prim.Native.Nat.{ℕ, ◌+◌, ◌-◌}
use Prim.Native.String.{String}
use mathlib.Core.Bool.{Bool, true, false, ◌&&◌, ◌||◌}
use mathlib.Core.List.{List, [], ◌∷◌, map}
use mathlib.Core.Option.{Option, none, some}
use fyrwall.Base.Tests.{leb, ◌==◌, if◌then◌else◌}
use fyrwall.Base.Text.{is_space}

abbrev pub codes : String → List ℕ
codes String.[] = []
codes (String.◌∷◌ c s) = code c ∷ codes s

-- unicode.ToUpper, up to letters that are not ASCII before and after
abbrev pub upper_code : ℕ → ℕ
upper_code n =
    if leb b'a' n && leb n b'z'
    then n - 32
    else if n == 0x131
    then b'I'
    else if n == 0x17f
    then b'S'
    else n

-- unicode.ToLower, likewise
abbrev pub lower_code : ℕ → ℕ
lower_code n =
    if leb b'A' n && leb n b'Z'
    then n + 32
    else if n == 0x130
    then b'i'
    else if n == 0x212a
    then b'k'
    else n

abbrev pub ascii_lower : ℕ → ℕ
ascii_lower n = if leb b'A' n && leb n b'Z' then n + 32 else n

abbrev pub equal_codes : List ℕ → List ℕ → Bool
equal_codes [] [] = true
equal_codes [] (y ∷ ys) = false
equal_codes (x ∷ xs) [] = false
equal_codes (x ∷ xs) (y ∷ ys) = x == y && equal_codes xs ys

abbrev pub begins : List ℕ → List ℕ → Bool
begins xs [] = true
begins [] (y ∷ ys) = false
begins (x ∷ xs) (y ∷ ys) = x == y && begins xs ys

-- strings.ToUpper(s) == t, and strings.ToLower(s) == t
unfoldable pub upper_is : String → String → Bool
upper_is s t = equal_codes (map upper_code (codes s)) (codes t)

unfoldable pub lower_is : String → String → Bool
lower_is s t = equal_codes (map lower_code (codes s)) (codes t)

-- strings.HasPrefix(strings.ToUpper(s), t)
unfoldable pub upper_begins : String → String → Bool
upper_begins s t = begins (map upper_code (codes s)) (codes t)

-- strings.EqualFold(s, t), for a t of ASCII letters other than k and s
unfoldable pub equal_fold : String → String → Bool
equal_fold s t = equal_codes (map ascii_lower (codes s)) (map ascii_lower (codes t))

-- strings.HasPrefix(s, t)
unfoldable pub has_prefix : String → String → Bool
has_prefix s String.[] = true
has_prefix String.[] (String.◌∷◌ d t) = false
has_prefix (String.◌∷◌ c s) (String.◌∷◌ d t) = code c == code d && has_prefix s t

abbrev pub contains_codes : List ℕ → List ℕ → Bool
contains_codes [] ys = begins [] ys
contains_codes (x ∷ xs) ys = begins (x ∷ xs) ys || contains_codes xs ys

-- strings.Contains(s, t)
unfoldable pub contains_text : String → String → Bool
contains_text s t = contains_codes (codes s) (codes t)

-- one letter for each class of letters that are the same up to case, up to letters that are not
-- ASCII in every case
abbrev pub fold_code : ℕ → ℕ
fold_code n =
    if leb b'A' n && leb n b'Z'
    then n + 32
    else if n == 0x212a
    then b'k'
    else if n == 0x17f
    then b's'
    else n

-- strings.EqualFold(s, t), for an ASCII text t
unfoldable pub fold_is : String → String → Bool
fold_is s t = equal_codes (map fold_code (codes s)) (map fold_code (codes t))

-- what is left of s after t, where s begins with t
abbrev pub after_prefix : String → String → Option String
after_prefix s String.[] = some s
after_prefix String.[] (String.◌∷◌ d t) = none
after_prefix (String.◌∷◌ c s) (String.◌∷◌ d t) =
    let rest = after_prefix s t in if code c == code d then rest else none

abbrev pub or_whole : String → Option String → String
or_whole s none = s
or_whole s (some r) = r

-- strings.TrimPrefix(s, t)
unfoldable pub trim_prefix : String → String → String
trim_prefix s t = or_whole s (after_prefix s t)

-- a field that is being read, in front of those behind it
abbrev pub flush : String → List String → List String
flush String.[] fs = fs
flush (String.◌∷◌ c s) fs = String.◌∷◌ c s ∷ fs

-- a character in front of the first field; `open` tells whether it goes on to the left
abbrev grow : Char → String × List String → String × List String
grow c (s, fs) = (String.◌∷◌ c s, fs)

abbrev close : String × List String → String × List String
close (s, fs) = ("", flush s fs)

abbrev fields_from : String → String × List String
fields_from String.[] = ("", [])
fields_from (String.◌∷◌ c s) =
    let rest = fields_from s in if is_space (code c) then close rest else grow c rest

-- strings.Fields(s)
unfoldable pub fields : String → List String
unfolding is_space
fields s = let (first, rest) = fields_from s in flush first rest
