-- ===== src/Base/Text.antt =====
-- The functions of Go's `strings` and `strconv` that the program uses, over the native text.
-- A separator is given by its character code; all separators of the program are ASCII.
pub mod Laws
pub mod Split
pub mod Fold
use Prim.Native.Nat.{ℕ, zero, suc, ◌+◌, ◌-◌, ◌*◌, ◌/◌, ◌%◌, ◌^◌}
use Prim.Native.Char.{Char, code}
use Prim.Native.String.{String, slice}
use mathlib.Core.Path.{◌≡◌, refl}
use mathlib.Core.Bool.{Bool, true, false, ◌&&◌, ◌||◌}
use mathlib.Core.List.{List, [], ◌∷◌}
use mathlib.Core.Option.{Option, none, some}
use fyrwall.Base.Tests.{leb, ◌==◌, if◌then◌else◌}
use fyrwall.Base.Int.{ℤ, pos, negsuc}

abbrev pub is_digit : Char → Bool
is_digit c = leb b'0' (code c) && leb (code c) b'9'

-- strings.IndexByte(s, sep), as the parts before and after the first separator
abbrev pub extend : Char → Option (String × String) → Option (String × String)
extend c none = none
extend c (some (a, b)) = some (String.◌∷◌ c a, b)

unfoldable pub cut : ℕ → String → Option (String × String)
cut sep String.[] = none
cut sep (String.◌∷◌ c s) = if code c == sep then some ("", s) else extend c (cut sep s)

-- strings.Contains(s, sep)
unfoldable pub contains : ℕ → String → Bool
contains sep String.[] = false
contains sep (String.◌∷◌ c s) = code c == sep || contains sep s

-- strings.Split(s, sep)
unfoldable pub split : ℕ → String → List String
split sep String.[] = "" ∷ []
split sep (String.◌∷◌ c s) = elim (split sep s) [
  | [] ↦ "" ∷ []
  | p ∷ ps ↦ if code c == sep then "" ∷ p ∷ ps else String.◌∷◌ c p ∷ ps
]

-- strings.ReplaceAll(s, from, to), for one character
unfoldable pub replace_all : ℕ → Char → String → String
replace_all from to String.[] = ""
replace_all from to (String.◌∷◌ c s) =
    String.◌∷◌ (if code c == from then to else c) (replace_all from to s)

-- unicode.IsSpace
unfoldable pub is_space : ℕ → Bool
is_space n =
    (leb 9 n && leb n 13)
    || n == 32
    || n == 0x85
    || n == 0xa0
    || n == 0x1680
    || (leb 0x2000 n && leb n 0x200a)
    || n == 0x2028
    || n == 0x2029
    || n == 0x202f
    || n == 0x205f
    || n == 0x3000

unfoldable pub trim_left : String → String
trim_left String.[] = ""
trim_left (String.◌∷◌ c s) = if is_space (code c) then trim_left s else String.◌∷◌ c s

-- a character in front of a text whose spaces at the end are gone
abbrev pub keep_right : Char → String → String
keep_right c String.[] = if is_space (code c) then "" else String.◌∷◌ c ""
keep_right c (String.◌∷◌ d s) = String.◌∷◌ c (String.◌∷◌ d s)

unfoldable pub trim_right : String → String
trim_right String.[] = ""
trim_right (String.◌∷◌ c s) = keep_right c (trim_right s)

-- strings.TrimSpace
unfoldable pub trim_space : String → String
unfolding is_space trim_left trim_right
trim_space s = trim_right (trim_left s)

-- strings.Join(xs, sep)
unfoldable pub join : String → List String → String
join sep [] = ""
join sep (x ∷ []) = x
join sep (x ∷ y ∷ ys) = Prim.Native.String.◌++◌ x (Prim.Native.String.◌++◌ sep (join sep (y ∷ ys)))

-- The decimal digits of a number below 10 ^ fuel, in front of a text.
unfoldable pub show_nat : ℕ → ℕ → String → String
show_nat zero n acc = acc
show_nat (suc fuel) n acc =
    let acc' = Prim.Native.String.◌++◌ (slice "0123456789" (n % 10) (n % 10 + 1)) acc in
    let rest = show_nat fuel (n / 10) acc' in if n / 10 == 0 then acc' else rest

-- the verb %d, and strconv.Itoa; twenty digits are enough for 64 bits
unfoldable pub itoa : ℤ → String
unfolding show_nat
itoa (pos n) = show_nat 20 n ""
itoa (negsuc n) = Prim.Native.String.◌++◌ "-" (show_nat 20 (n + 1) "")

itoa_test : itoa (negsuc 1233) ≡ "-1234"
unfolding itoa
itoa_test = refl

-- the digits of a decimal number, most significant first; `none` at any other character
unfoldable pub digits : ℕ → String → Option ℕ
digits n String.[] = some n
digits n (String.◌∷◌ c s) =
    let rest = digits (n * 10 + (code c - b'0')) s in if is_digit c then rest else none

-- What `strconv.Atoi` returns: the value, and whether the error is nil.
pub record Parsed : Type 0 where
  pub value : ℤ
  pub ok : Bool

abbrev pub max_int : ℕ
max_int = 2 ^ 63 - 1

-- out of range, the value is the nearest integer and the error is not nil
abbrev pub in_range_pos : Option ℕ → Parsed
in_range_pos none = record { value = pos 0; ok = false }
in_range_pos (some n) =
    if leb n max_int
    then record { value = pos n; ok = true }
    else record { value = pos max_int; ok = false }

abbrev pub negate : ℕ → ℤ
negate zero = pos 0
negate (suc n) = negsuc n

abbrev pub in_range_neg : Option ℕ → Parsed
in_range_neg none = record { value = pos 0; ok = false }
in_range_neg (some n) =
    if leb n (2 ^ 63)
    then record { value = negate n; ok = true }
    else record { value = negsuc max_int; ok = false }

-- an unsigned decimal has at least one digit
unfoldable pub unsigned : String → Option ℕ
unfolding digits
unsigned String.[] = none
unsigned (String.◌∷◌ c s) = digits 0 (String.◌∷◌ c s)

unfoldable pub atoi : String → Parsed
unfolding unsigned
atoi String.[] = record { value = pos 0; ok = false }
atoi (String.◌∷◌ c s) =
    if code c == b'-'
    then in_range_neg (unsigned s)
    else if code c == b'+'
    then in_range_pos (unsigned s)
    else in_range_pos (unsigned (String.◌∷◌ c s))
