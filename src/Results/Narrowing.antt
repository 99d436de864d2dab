-- ===== src/Results/Narrowing.antt =====
-- The ranges of Java's integer types, and what C makes of a Lua integer that is assigned to one.
use yellow_tree.Common.{
  ◌*◌, ◌/◌, Bool-cases, inl, inr, ltb, ℕ, suc, ◌+◌, ◌-◌, ◌<◌, ◌^◌, ◌%◌, String, ◌≡◌, refl, arith,
}
use yellow_tree.Common.Int.{ℤ, pos, negsuc, pos_part, neg_part, narrow, narrow_unsigned, of_bits}
use yellow_tree.Runtime.Value.{JValue}

-- From -h to h - 1; and from 0 to m - 1.
abbrev pub IsSigned : ℕ → ℤ → Type 0
IsSigned h (pos n) = n < h
IsSigned h (negsuc n) = n < h

abbrev pub IsUnsigned : ℕ → ℤ → Type 0
IsUnsigned m z = (neg_part z ≡ 0) × (pos_part z < m)

-- x and n differ by a multiple of m.
abbrev pub SameModulo : ℕ → ℤ → ℤ → Type 0
SameModulo m x n =
    (a : ℕ) × (b : ℕ) × (pos_part x + neg_part n + m * a ≡ neg_part x + pos_part n + m * b)

-- Java's integer types, by their letters.
pub data IntegerType : Type 0 where
  byte char short int long : IntegerType

abbrev pub letter : IntegerType → String
letter byte = "B"
letter char = "C"
letter short = "S"
letter int = "I"
letter long = "J"

-- The member of the union that is written for a type, and what it may hold for the Lua integer `x`:
-- a `long` is `x` itself.
abbrev pub Converted : IntegerType → ℤ → JValue → Type 0
Converted byte x v = (n : ℤ) × (v ≡ JValue.b n) × IsSigned (2 ^ 7) n × SameModulo (2 ^ 8) x n
Converted char x v = (n : ℤ) × (v ≡ JValue.c n) × IsUnsigned (2 ^ 16) n × SameModulo (2 ^ 16) x n
Converted short x v = (n : ℤ) × (v ≡ JValue.s n) × IsSigned (2 ^ 15) n × SameModulo (2 ^ 16) x n
Converted int x v = (n : ℤ) × (v ≡ JValue.i n) × IsSigned (2 ^ 31) n × SameModulo (2 ^ 32) x n
Converted long x v = v ≡ JValue.j x

of_bits-IsSigned : (h b : ℕ) → b < h + h → IsSigned h (of_bits (h + h) b)
of_bits-IsSigned h b q = ground arith

pub narrow-8 : (z : ℤ) → IsSigned (2 ^ 7) (narrow (2 ^ 8) z)
unfolding narrow
narrow-8 (pos n) = of_bits-IsSigned (2 ^ 7) (n % 2 ^ 8) (omega arith)
narrow-8 (negsuc n) = of_bits-IsSigned (2 ^ 7) (2 ^ 8 - 1 - n % 2 ^ 8) (omega arith)

pub narrow-16 : (z : ℤ) → IsSigned (2 ^ 15) (narrow (2 ^ 16) z)
unfolding narrow
narrow-16 (pos n) = of_bits-IsSigned (2 ^ 15) (n % 2 ^ 16) (omega arith)
narrow-16 (negsuc n) = of_bits-IsSigned (2 ^ 15) (2 ^ 16 - 1 - n % 2 ^ 16) (omega arith)

pub narrow-32 : (z : ℤ) → IsSigned (2 ^ 31) (narrow (2 ^ 32) z)
unfolding narrow
narrow-32 (pos n) = of_bits-IsSigned (2 ^ 31) (n % 2 ^ 32) (omega arith)
narrow-32 (negsuc n) = of_bits-IsSigned (2 ^ 31) (2 ^ 32 - 1 - n % 2 ^ 32) (omega arith)

pub narrow_unsigned-16 : (z : ℤ) → IsUnsigned (2 ^ 16) (narrow_unsigned (2 ^ 16) z)
unfolding narrow_unsigned
narrow_unsigned-16 (pos n) = (refl, omega arith)
narrow_unsigned-16 (negsuc n) = (refl, omega arith)

same_pos : (m q r z : ℕ) → z ≡ m * q + r → r < m → SameModulo m (pos z) (of_bits m r)
same_pos m q r z e h = elim (Bool-cases (ltb (r + r) m)) [
  | inl t ↦ rw t (0, q, omega arith)
  | inr t ↦ rw t (0, suc q, omega arith)
]

same_negsuc :
    (m q r z : ℕ) → z ≡ m * q + r → r < m → SameModulo m (negsuc z) (of_bits m (m - 1 - r))
same_negsuc m q r z e h = elim (Bool-cases (ltb ((m - 1 - r) + (m - 1 - r)) m)) [
  | inl t ↦ rw t (suc q, 0, omega arith)
  | inr t ↦ rw t (q, 0, omega arith)
]

pub narrow-8_same : (z : ℤ) → SameModulo (2 ^ 8) z (narrow (2 ^ 8) z)
unfolding narrow
narrow-8_same (pos n) = same_pos (2 ^ 8) (n / 2 ^ 8) (n % 2 ^ 8) n (omega arith) (omega arith)
narrow-8_same (negsuc n) = same_negsuc (2 ^ 8) (n / 2 ^ 8) (n % 2 ^ 8) n (omega arith) (omega arith)

pub narrow-16_same : (z : ℤ) → SameModulo (2 ^ 16) z (narrow (2 ^ 16) z)
unfolding narrow
narrow-16_same (pos n) = same_pos (2 ^ 16) (n / 2 ^ 16) (n % 2 ^ 16) n (omega arith) (omega arith)
narrow-16_same (negsuc n) =
    same_negsuc (2 ^ 16) (n / 2 ^ 16) (n % 2 ^ 16) n (omega arith) (omega arith)

pub narrow-32_same : (z : ℤ) → SameModulo (2 ^ 32) z (narrow (2 ^ 32) z)
unfolding narrow
narrow-32_same (pos n) = same_pos (2 ^ 32) (n / 2 ^ 32) (n % 2 ^ 32) n (omega arith) (omega arith)
narrow-32_same (negsuc n) =
    same_negsuc (2 ^ 32) (n / 2 ^ 32) (n % 2 ^ 32) n (omega arith) (omega arith)

pub narrow_unsigned-16_same : (z : ℤ) → SameModulo (2 ^ 16) z (narrow_unsigned (2 ^ 16) z)
unfolding narrow_unsigned
narrow_unsigned-16_same (pos n) = (0, n / 2 ^ 16, omega arith)
narrow_unsigned-16_same (negsuc n) = (suc (n / 2 ^ 16), 0, omega arith)
