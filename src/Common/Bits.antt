-- ===== src/Common/Bits.antt =====
-- One bit of a number, as masking with a power of two reads it.
use Prim.Native.Nat.{
  ℕ, zero, suc, ◌*◌, ◌/◌, ◌%◌, ◌^◌, ◌≤◌, ◌<◌, min, bit_and, digits, bit_and-bitwise, ◌+◌,
}
use mathlib.Core.Path.{◌≡◌, refl, ◌∙◌, ap, sym}
use native.Mathlib.Nat.{div-div-eq-div-mul, zero-div}
use native.Mathlib.Omega.{pow_step, arith}

pub two_pow_pos : (k : ℕ) → 0 < 2 ^ k
two_pow_pos zero = omega arith
two_pow_pos (suc k) = omega (arith, two_pow_pos k, pow_step 2 k)

abbrev masked : (fuel a b : ℕ) → ℕ
masked fuel a b = digits (λ b. zero) min fuel a b

masked-zero : (fuel a : ℕ) → a ≤ fuel → masked fuel a 0 ≡ 0
masked-zero zero zero h = refl
masked-zero zero (suc a) h = absurd (omega arith)
masked-zero (suc fuel) zero h = refl
masked-zero (suc fuel) (suc a) h = omega (arith, masked-zero fuel (suc a / 2) (omega arith))

half_power : (k : ℕ) → 2 ^ suc k / 2 ≡ 2 ^ k
half_power k = omega arith

even-min : (p b m : ℕ) → b ≡ 2 * p → min m (b % 2) ≡ 0
even-min p b m e = omega arith

carry : (q p b m : ℕ) → b ≡ 2 * p → q * p * 2 + min m (b % 2) ≡ q * b
carry q p b m e = rw (even-min p b m e) (rw e (grind arith))

masked-power : (k fuel a : ℕ) → a ≤ fuel → masked fuel a (2 ^ k) ≡ (a / 2 ^ k) % 2 * 2 ^ k
masked-power zero zero zero h = refl
masked-power zero zero (suc a) h = absurd (omega arith)
masked-power zero (suc fuel) zero h = refl
masked-power zero (suc fuel) (suc a) h = omega (arith, masked-zero fuel (suc a / 2) (omega arith))
masked-power (suc k) zero zero h = rw (zero-div (2 ^ suc k)) (omega arith)
masked-power (suc k) zero (suc a) h = absurd (omega arith)
masked-power (suc k) (suc fuel) zero h = rw (zero-div (2 ^ suc k)) (omega arith)
masked-power (suc k) (suc fuel) (suc a) h =
    let halved : suc a / 2 / 2 ^ k ≡ suc a / 2 ^ suc k =
      div-div-eq-div-mul (suc a) 2 (2 ^ k) ∙ ap (λ n. suc a / n) (sym (pow_step 2 k)) in
    let rest : masked fuel (suc a / 2) (2 ^ suc k / 2) ≡ (suc a / 2 ^ suc k) % 2 * 2 ^ k =
      ap (masked fuel (suc a / 2)) (half_power k)
      ∙ masked-power k fuel (suc a / 2) (omega arith)
      ∙ ap (λ n. n % 2 * 2 ^ k) halved in
    ap (λ n. n * 2 + min (suc a % 2) (2 ^ suc k % 2)) rest
    ∙ carry (suc a / 2 ^ suc k % 2) (2 ^ k) (2 ^ suc k) (suc a % 2) (pow_step 2 k)

-- Masking with the power reads the bit of that place.
pub bit_and-power : (k a : ℕ) → bit_and a (2 ^ k) ≡ (a / 2 ^ k) % 2 * 2 ^ k
bit_and-power k a = bit_and-bitwise a (2 ^ k) ∙ masked-power k a a (omega arith)
