-- ===== src/Auth/Password.antt =====
-- internal/auth/password_policy.go: the strength bar for passwords. The character classes are
-- those of the Unicode tables, and come as a parameter.
pub mod Runs
use Prim.Native.Char.{Char, code}
use Prim.Native.String.{len, find}
use fyrwall.Base.{
  ℕ, zero, suc, ◌+◌, ◌≤◌, ◌<◌, String, ◌≡◌, refl, Bool, true, false, not, ◌&&◌, ◌||◌, Option, none,
  some, List, [], ◌∷◌, ◌++◌, ltb, leb, ◌==◌, if◌then◌else◌,
}

-- unicode.IsUpper, IsLower, IsDigit, IsPunct or IsSymbol, and strings.ToLower
pub record Unicode : Type 0 where
  pub is_upper : Char → Bool
  pub is_lower : Char → Bool
  pub is_digit : Char → Bool
  pub is_special : Char → Bool
  pub to_lower : String → String

pub record PasswordPolicy : Type 0 where
  pub min_length : ℕ
  pub require_upper : Bool
  pub require_lower : Bool
  pub require_digit : Bool
  pub require_special : Bool
  pub max_consecutive : ℕ
  pub forbidden : List String

abbrev pub default_policy : PasswordPolicy
default_policy = record {
  min_length = 14;
  require_upper = true;
  require_lower = true;
  require_digit = true;
  require_special = true;
  max_consecutive = 3;
  forbidden =
      "fyrwall" ∷ "potenfyr" ∷ "admin" ∷ "root" ∷ "password" ∷ "qwerty" ∷ "letmein" ∷ "iloveyou"
      ∷ "dragon" ∷ "monkey" ∷ [];
}

pub data PasswordFault : Type 0 where
  too_short : ℕ → PasswordFault
  no_upper no_lower no_digit no_special : PasswordFault
  repeats : ℕ → PasswordFault
  forbidden_text : String → PasswordFault

-- the variables of the loop over the characters
pub record Scan : Type 0 where
  pub has_upper : Bool
  pub has_lower : Bool
  pub has_digit : Bool
  pub has_special : Bool
  pub last : ℕ
  pub run : ℕ
  pub max_run : ℕ

abbrev pub initial : Scan
initial = record {
  has_upper = false;
  has_lower = false;
  has_digit = false;
  has_special = false;
  last = 0;
  run = 0;
  max_run = 0;
}

abbrev larger : ℕ → ℕ → ℕ
larger a b = if ltb b a then a else b

-- the characters of a text
abbrev pub chars : String → List Char
chars String.[] = []
chars (String.◌∷◌ c s) = c ∷ chars s

-- the bytes of a character in UTF-8
abbrev width : ℕ → ℕ
width n = if ltb n 128 then 1 else if ltb n 2048 then 2 else if ltb n 65536 then 3 else 4

-- len of a text, which counts bytes
abbrev pub byte_length : List Char → ℕ
byte_length [] = 0
byte_length (c ∷ cs) = width (code c) + byte_length cs

-- strings.Contains
abbrev pub contains_text : String → String → Bool
contains_text s t = leb (find s t) (len s)

abbrev pub is_nil : String → Bool
is_nil String.[] = true
is_nil (String.◌∷◌ c s) = false

abbrev pub when : Bool → PasswordFault → List PasswordFault
when true f = f ∷ []
when false f = []

module _ (u : Unicode) where
  -- the `switch` over the classes
  unfoldable pub classify : Char → Scan → Scan
  classify c s =
      if u.is_upper c
      then record s { has_upper = true }
      else if u.is_lower c
      then record s { has_lower = true }
      else if u.is_digit c
      then record s { has_digit = true }
      else if u.is_special c
      then record s { has_special = true }
      else s

  -- the length of the run that ends in this character
  unfoldable pub count_run : Char → Scan → Scan
  count_run c s =
      let n = (if code c == s.last then s.run + 1 else 1) in
      record s { last = code c; run = n; max_run = larger n s.max_run }

  unfoldable pub scan : Scan → List Char → Scan
  unfolding classify count_run
  scan s [] = s
  scan s (c ∷ cs) = scan (count_run c (classify c s)) cs

  -- the first forbidden text that the password holds
  unfoldable pub forbidden_faults : String → List String → List PasswordFault
  forbidden_faults lower [] = []
  forbidden_faults lower (bad ∷ rest) =
      if not (is_nil bad) && contains_text lower bad
      then forbidden_text bad ∷ []
      else forbidden_faults lower rest

  unfoldable pub validate_password : String → PasswordPolicy → List PasswordFault
  validate_password pw p =
      let s = scan initial (chars pw) in
      when (ltb (byte_length (chars pw)) p.min_length) (too_short p.min_length)
      ++ (when (p.require_upper && not s.has_upper) no_upper
          ++ (when (p.require_lower && not s.has_lower) no_lower
              ++ (when (p.require_digit && not s.has_digit) no_digit
                  ++ (when (p.require_special && not s.has_special) no_special
                      ++ (when (ltb 0 p.max_consecutive && ltb p.max_consecutive s.max_run)
                            (repeats p.max_consecutive)
                          ++ forbidden_faults (u.to_lower pw) p.forbidden)))))
