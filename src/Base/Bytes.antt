-- ===== src/Base/Bytes.antt =====
-- Bitwise "or" and "xor" of bytes, checked at every pair of bytes.
use Prim.Native.Nat.{bit_or, bit_xor}
use fyrwall.Base.Tests.{ltb, ◌==◌, if◌then◌else◌, Bool-cases}
use Prim.Native.Nat.{ℕ, zero, suc, ◌+◌, ◌-◌, ◌<◌, ◌≤◌}
use mathlib.Core.Path.{◌≡◌, refl, subst}
use mathlib.Core.Logic.{◌↔◌, inl, inr}
use mathlib.Core.Bool.{Bool, true, false, ◌&&◌}
use native.Mathlib.Omega.{arith}

-- whether a law of one byte holds of the n bytes that end before `last`
from : ℕ → (ℕ → Bool) → ℕ → Bool
from zero law last = true
from (suc n) law last = law (last - suc n) && from n law last

law_now : (law : ℕ → Bool) (last n : ℕ) → from (suc n) law last ≡ true → law (last - suc n) ≡ true
unfolding from
law_now law last n h = ground (arith, h)

rest_now : (law : ℕ → Bool) (last n : ℕ) → from (suc n) law last ≡ true → from n law last ≡ true
unfolding from
rest_now law last n h = ground (arith, h)

from_holds :
    (law : ℕ → Bool) (last n byte : ℕ)
    → from n law last ≡ true
    → byte < last
    → last ≤ n + byte
    → law byte ≡ true
unfolding from
from_holds law last zero byte h low high = absurd (omega arith)
from_holds law last (suc n) byte h low high = elim (Bool-cases (last - suc n == byte)) [
  | inl e ↦ subst (λ k. law k ≡ true) (ground arith) (law_now law last n h)
  | inr e ↦ from_holds law last n byte (rest_now law last n h) low (ground arith)
]

abbrev pub same : Bool → Bool → Bool
same true b = b
same false b = if b then false else true

abbrev pub byte_laws : ℕ → ℕ → Bool
byte_laws x y =
    same (bit_or x y == 0) (x == 0 && y == 0)
    && ltb (bit_or x y) 256
    && same (bit_xor x y == 0) (x == y)
    && ltb (bit_xor x y) 256

table : from 256 (λ x. from 256 (byte_laws x) 256) 256 ≡ true
unfolding from
table = refl

pub byte_lemma : (x y : ℕ) → x < 256 → y < 256 → byte_laws x y ≡ true
byte_lemma x y hx hy =
    let row = from_holds (λ a. from 256 (byte_laws a) 256) 256 256 x table hx (omega arith) in
    from_holds (byte_laws x) 256 256 y row hy (omega arith)

module _ (x y : ℕ) (hx : x < 256) (hy : y < 256) where
  pub bit_or-lt : bit_or x y < 256
  bit_or-lt = ground (arith, byte_lemma x y hx hy)

  pub bit_xor-lt : bit_xor x y < 256
  bit_xor-lt = ground (arith, byte_lemma x y hx hy)

  pub bit_or-zero : (bit_or x y ≡ 0) ↔ (x ≡ 0) × (y ≡ 0)
  bit_or-zero = ground (arith, byte_lemma x y hx hy)

  pub bit_xor-zero : (bit_xor x y ≡ 0) ↔ (x ≡ y)
  bit_xor-zero = ground (arith, byte_lemma x y hx hy)
