-- ===== src/Base/Int.antt =====
-- Go's `int` as an integer over the native numbers.
use Prim.Native.Nat.{ℕ, suc, ◌+◌, ◌≤◌}
use mathlib.Core.Path.{◌≡◌}
use mathlib.Core.Bool.{Bool, true, false}
use native.Mathlib.Omega.{arith}
use fyrwall.Base.Tests.{ltb, leb}

-- `negsuc n` is -(n + 1).
pub data ℤ : Type 0 where
  pos : ℕ → ℤ
  negsuc : ℕ → ℤ

abbrev pub pos_part : ℤ → ℕ
pos_part (pos n) = n
pos_part (negsuc n) = 0

abbrev pub neg_part : ℤ → ℕ
neg_part (pos n) = 0
neg_part (negsuc n) = suc n

infix 50 ◌≤ℤ◌
abbrev pub ◌≤ℤ◌ : ℤ → ℤ → Type 0
a ≤ℤ b = pos_part a + neg_part b ≤ pos_part b + neg_part a

-- the tests `a <= b` and `a < b`
abbrev pub lebℤ : ℤ → ℤ → Bool
lebℤ a b = leb (pos_part a + neg_part b) (pos_part b + neg_part a)

abbrev pub ltbℤ : ℤ → ℤ → Bool
ltbℤ a b = ltb (pos_part a + neg_part b) (pos_part b + neg_part a)

pub lebℤ→≤ℤ : (a b : ℤ) → lebℤ a b ≡ true → a ≤ℤ b
lebℤ→≤ℤ a b h = ground arith

pub ≤ℤ→lebℤ : (a b : ℤ) → a ≤ℤ b → lebℤ a b ≡ true
≤ℤ→lebℤ a b h = ground arith

pub ≤ℤ-antisymm : (a b : ℤ) → a ≤ℤ b → b ≤ℤ a → a ≡ b
≤ℤ-antisymm a b h k = ground arith

pub ltbℤ-false : (a b : ℤ) → ltbℤ a b ≡ false → b ≤ℤ a
ltbℤ-false a b h = ground arith
