-- ===== src/Prelude/Int.antt =====
-- Go's `int`: an integer, without a bound. The code only compares, adds one and converts from
-- lengths, far below 2 ^ 63.
use Prim.Native.Nat.{ℕ, zero, suc, ◌+◌, ◌≤◌, ◌<◌}
use mathlib.Core.Path.{◌≡◌}
use mathlib.Core.Bool.{Bool, true, false}
use native.Mathlib.Omega.{arith}
use zeroid.Prelude.Tests.{ltb}

-- `negsuc n` is -(n + 1).
pub data ℤ : Type 0 where
  pos : ℕ → ℤ
  negsuc : ℕ → ℤ

abbrev pub pos_part : ℤ → ℕ
pos_part (pos n) = n
pos_part (negsuc n) = 0

abbrev pub neg_part : ℤ → ℕ
neg_part (pos n) = 0
neg_part (negsuc n) = suc n

infix 50 ◌<ℤ◌ ◌≤ℤ◌
abbrev pub ◌<ℤ◌ : ℤ → ℤ → Type 0
a <ℤ b = pos_part a + neg_part b < pos_part b + neg_part a

abbrev pub ◌≤ℤ◌ : ℤ → ℤ → Type 0
a ≤ℤ b = pos_part a + neg_part b ≤ pos_part b + neg_part a

abbrev pub lt_int : ℤ → ℤ → Bool
lt_int a b = ltb (pos_part a + neg_part b) (pos_part b + neg_part a)

pub lt_int→lt : (a b : ℤ) → lt_int a b ≡ true → a <ℤ b
lt_int→lt a b h = ground arith

pub lt_int→le : (a b : ℤ) → lt_int a b ≡ false → b ≤ℤ a
lt_int→le a b h = ground arith

pub le→lt_int : (a b : ℤ) → b ≤ℤ a → lt_int a b ≡ false
le→lt_int a b h = ground arith

-- A value is non-negative or the negation of a positive number, never both.
pub parts_disjoint : (a : ℤ) → 0 < pos_part a → neg_part a ≡ 0
parts_disjoint (pos n) h = ground arith
parts_disjoint (negsuc n) h = ground arith

-- `n + 1`
unfoldable pub succ : ℤ → ℤ
succ (pos n) = pos (suc n)
succ (negsuc zero) = pos 0
succ (negsuc (suc n)) = negsuc n
