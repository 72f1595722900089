-- ===== src/Base/Frames.antt =====
-- Parts of byte sequences, and the 32-bit length that `encoding/binary` writes in front of a
-- record, most significant byte first. A byte sequence is the list of its bytes.
use Prim.Native.Nat.{ℕ, zero, suc, ◌+◌, ◌-◌, ◌*◌, ◌/◌, ◌%◌, ◌^◌, ◌≤◌, ◌<◌}
use mathlib.Core.Path.{◌≡◌, refl, sym, ap, subst}
use mathlib.Core.Option.{Option, none, some}
use mathlib.Core.List.{List, [], ◌∷◌, ◌++◌}
use native.Mathlib.Omega.{arith}
use fyrwall.Base.Lists.{length}

abbrev pub Bytes : Type 0
Bytes = List ℕ

sub_suc : (n m : ℕ) → suc n - suc m ≡ n - m
sub_suc n m = omega arith

module _ {ℓ} {A : Type ℓ} where
  -- xs[:n], for n of at most the length
  unfoldable pub take : ℕ → List A → List A
  take zero xs = []
  take (suc n) [] = []
  take (suc n) (x ∷ xs) = x ∷ take n xs

  -- xs[n:], for n of at most the length
  unfoldable pub drop : ℕ → List A → List A
  drop zero xs = xs
  drop (suc n) [] = []
  drop (suc n) (x ∷ xs) = drop n xs

  take-append : (xs ys : List A) → take (length xs) (xs ++ ys) ≡ xs
  unfolding take
  take-append [] ys = refl
  take-append (x ∷ xs) ys = cc (take-append xs ys)

  drop-append : (xs ys : List A) → drop (length xs) (xs ++ ys) ≡ ys
  unfolding drop
  drop-append [] ys = refl
  drop-append (x ∷ xs) ys = drop-append xs ys

  pub take_at : (n : ℕ) (xs ys : List A) → length xs ≡ n → take n (xs ++ ys) ≡ xs
  take_at n xs ys e = subst (λ k. take k (xs ++ ys) ≡ xs) e (take-append xs ys)

  pub drop_at : (n : ℕ) (xs ys : List A) → length xs ≡ n → drop n (xs ++ ys) ≡ ys
  drop_at n xs ys e = subst (λ k. drop k (xs ++ ys) ≡ ys) e (drop-append xs ys)

  pub length-drop : (n : ℕ) (xs : List A) → length (drop n xs) ≡ length xs - n
  unfolding drop
  length-drop zero xs = omega arith
  length-drop (suc n) [] = omega arith
  length-drop (suc n) (x ∷ xs) = omega (arith, length-drop n xs)

  pub take-nil : (n : ℕ) → ◌≡◌ {A = List A} (take n []) []
  unfolding take
  take-nil zero = refl
  take-nil (suc n) = refl

  pub drop-nil : (n : ℕ) → ◌≡◌ {A = List A} (drop n []) []
  unfolding drop
  drop-nil zero = refl
  drop-nil (suc n) = refl

  pub drop-drop : (o n s : ℕ) (xs : List A) → s ≡ o + n → drop s xs ≡ drop n (drop o xs)
  unfolding drop
  drop-drop zero n s xs e = ap (λ k. drop k xs) (omega arith)
  drop-drop (suc o) n zero xs e = absurd (omega arith)
  drop-drop (suc o) n (suc s) [] e = sym (drop-nil n)
  drop-drop (suc o) n (suc s) (x ∷ xs) e = drop-drop o n s xs (omega arith)

  -- two parts one after the other are one part
  pub take-drop :
      (n m s : ℕ) (xs : List A) → s ≡ n + m → take n xs ++ take m (drop n xs) ≡ take s xs
  unfolding take drop
  take-drop zero m s xs e = ap (λ k. take k xs) (omega arith)
  take-drop (suc n) m zero xs e = absurd (omega arith)
  take-drop (suc n) m (suc s) [] e = take-nil m
  take-drop (suc n) m (suc s) (x ∷ xs) e = cc (take-drop n m s xs (omega arith))

  pub take-le : (n : ℕ) (xs : List A) → length (take n xs) ≤ n
  unfolding take
  take-le zero xs = omega arith
  take-le (suc n) [] = omega arith
  take-le (suc n) (x ∷ xs) = omega (arith, take-le n xs)

  pub take_all : (n : ℕ) (xs : List A) → length xs ≤ n → take n xs ≡ xs
  unfolding take
  take_all n [] h = take-nil n
  take_all zero (x ∷ xs) h = absurd (omega arith)
  take_all (suc n) (x ∷ xs) h = cc (take_all n xs (omega arith))

  -- a prefix of a concatenation stays in the first list or keeps all of it
  pub take_short : (n : ℕ) (xs ys : List A) → n ≤ length xs → take n (xs ++ ys) ≡ take n xs
  unfolding take
  take_short zero xs ys h = refl
  take_short (suc n) [] ys h = absurd (omega arith)
  take_short (suc n) (x ∷ xs) ys h = cc (take_short n xs ys (omega arith))

  pub take_long :
      (n : ℕ) (xs ys : List A) → length xs ≤ n → take n (xs ++ ys) ≡ xs ++ take (n - length xs) ys
  unfolding take
  take_long n [] ys h = ap (λ k. take k ys) (omega arith)
  take_long zero (x ∷ xs) ys h = absurd (omega arith)
  take_long (suc n) (x ∷ xs) ys h = cc (take_long n xs ys (omega arith), sub_suc n (length xs))

  pub length-take : (n : ℕ) (xs : List A) → n ≤ length xs → length (take n xs) ≡ n
  unfolding take
  length-take zero xs h = refl
  length-take (suc n) [] h = absurd (omega arith)
  length-take (suc n) (x ∷ xs) h = omega (arith, length-take n xs (omega arith))

  unfoldable pub concat : List (List A) → List A
  concat [] = []
  concat (xs ∷ rest) = xs ++ concat rest

-- binary.BigEndian.PutUint32(b, uint32(n))
unfoldable pub put_uint32 : ℕ → Bytes
put_uint32 n = (n / 2 ^ 24) % 256 ∷ (n / 2 ^ 16) % 256 ∷ (n / 2 ^ 8) % 256 ∷ n % 256 ∷ []

-- binary.BigEndian.Uint32 of the first four bytes, and the bytes after them; `none` where there
-- are fewer
unfoldable pub uint32 : Bytes → Option (ℕ × Bytes)
uint32 [] = none
uint32 (a ∷ []) = none
uint32 (a ∷ b ∷ []) = none
uint32 (a ∷ b ∷ c ∷ []) = none
uint32 (a ∷ b ∷ c ∷ d ∷ rest) = some (a * 2 ^ 24 + b * 2 ^ 16 + c * 2 ^ 8 + d, rest)

value-bytes :
    (n : ℕ)
    → n < 2 ^ 32
    → (n / 2 ^ 24) % 256 * 2 ^ 24
        + (n / 2 ^ 16) % 256 * 2 ^ 16
        + (n / 2 ^ 8) % 256 * 2 ^ 8
        + n % 256
      ≡ n
value-bytes n h = omega arith

-- a length below 2 ^ 32 is read back
pub uint32-put_uint32 :
    (n : ℕ) (rest : Bytes) → n < 2 ^ 32 → uint32 (put_uint32 n ++ rest) ≡ some (n, rest)
unfolding uint32 put_uint32
uint32-put_uint32 n rest h = rw (value-bytes n h) refl

pub length-put_uint32 : (n : ℕ) → length (put_uint32 n) ≡ 4
unfolding put_uint32
length-put_uint32 n = refl

-- what is left after the four bytes is four bytes shorter
pub uint32-lt :
    (raw rest : Bytes) (n : ℕ) → uint32 raw ≡ some (n, rest) → length raw ≡ 4 + length rest
unfolding uint32
uint32-lt [] rest n h = cc
uint32-lt (a ∷ []) rest n h = cc
uint32-lt (a ∷ b ∷ []) rest n h = cc
uint32-lt (a ∷ b ∷ c ∷ []) rest n h = cc
uint32-lt (a ∷ b ∷ c ∷ d ∷ tail) rest n h = grind (arith, h)

-- a length is missing exactly where there are fewer than four bytes
pub uint32_short : (raw : Bytes) → length raw < 4 → uint32 raw ≡ none
unfolding uint32
uint32_short [] h = refl
uint32_short (a ∷ []) h = refl
uint32_short (a ∷ b ∷ []) h = refl
uint32_short (a ∷ b ∷ c ∷ []) h = refl
uint32_short (a ∷ b ∷ c ∷ d ∷ tail) h = absurd (omega arith)
