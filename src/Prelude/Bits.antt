-- ===== src/Prelude/Bits.antt =====
-- Bounds of the bit operations at variables.
use mathlib.Core.Path.{◌≡◌}
use Prim.Native.Nat.{ℕ, zero, suc, ◌/◌, ◌%◌, ◌≤◌, min, bit_and, digits, bit_and-bitwise}
use native.Mathlib.Omega.{arith}

abbrev and_digits : ℕ → ℕ → ℕ → ℕ
and_digits n a b = digits (λ b. zero) min n a b

and_digits-le : (n a b : ℕ) → and_digits n a b ≤ b
and_digits-le zero a b = omega arith
and_digits-le (suc n) zero b = omega arith
and_digits-le (suc n) (suc a) b = omega (arith, and_digits-le n (suc a / 2) (b / 2))

-- A masked value is at most the mask.
pub bit_and-le_right : (a b : ℕ) → bit_and a b ≤ b
bit_and-le_right a b = omega (arith, bit_and-bitwise a b, and_digits-le a a b)

-- The lowest bit.
pub bit_and-one : (a : ℕ) → bit_and a 1 ≡ a % 2
bit_and-one zero = omega (arith, bit_and-bitwise 0 1)
bit_and-one (suc a) = omega (arith, bit_and-bitwise (suc a) 1, and_digits-le a (suc a / 2) (1 / 2))
