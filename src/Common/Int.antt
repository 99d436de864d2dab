-- ===== src/Common/Int.antt =====
-- Signed integers over the native numbers, and the narrowing of a value to a signed or an unsigned
-- machine type of `w` bits, which C does on assignment.
use Prim.Native.Nat.{ℕ, suc, ◌+◌, ◌-◌, ◌%◌, ◌≤◌}
use mathlib.Core.Bool.{Bool}
use yellow_tree.Common.Tests.{ltb, leb, if◌then◌else◌}

-- `negsuc n` is -(n + 1).
pub data ℤ : Type 0 where
  pos : ℕ → ℤ
  negsuc : ℕ → ℤ

abbrev pub pos_part : ℤ → ℕ
pos_part (pos n) = n
pos_part (negsuc n) = 0

abbrev pub neg_part : ℤ → ℕ
neg_part (pos n) = 0
neg_part (negsuc n) = suc n

-- a - b, as an integer.
abbrev pub sub_ℕ : ℕ → ℕ → ℤ
sub_ℕ a b = if leb b a then pos (a - b) else negsuc (b - a - 1)

infixl 65 ◌-ℤ◌
infix 50 ◌≤ℤ◌
unfoldable pub ◌-ℤ◌ : ℤ → ℤ → ℤ
a -ℤ b = sub_ℕ (pos_part a + neg_part b) (neg_part a + pos_part b)

abbrev pub ◌≤ℤ◌ : ℤ → ℤ → Type 0
a ≤ℤ b = pos_part a + neg_part b ≤ pos_part b + neg_part a

abbrev pub ltb_ℤ : ℤ → ℤ → Bool
ltb_ℤ a b = ltb (pos_part a + neg_part b) (pos_part b + neg_part a)

-- The two's complement bits of an integer, as a number below `m`.
abbrev pub bits : ℕ → ℤ → ℕ
bits m (pos n) = n % m
bits m (negsuc n) = m - 1 - n % m

-- The signed integer that a pattern of bits stands for, when half of the patterns are negative.
abbrev pub of_bits : ℕ → ℕ → ℤ
of_bits m b = if ltb (b + b) m then pos b else negsuc (m - b - 1)

-- Conversion to the signed type with `m` values.
unfoldable pub narrow : ℕ → ℤ → ℤ
narrow m z = of_bits m (bits m z)

-- Conversion to the unsigned type with `m` values.
unfoldable pub narrow_unsigned : ℕ → ℤ → ℤ
narrow_unsigned m z = pos (bits m z)
