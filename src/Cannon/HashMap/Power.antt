-- ===== src/Cannon/HashMap/Power.antt =====
-- The number of buckets: a power of two that the loop reaches, or does not.
use native.Mathlib.Nat.{pow-le-pow_right, one-le-pow, pow-suc, eq-or-lt_of_le}
use cpp_project.Prelude.{
  ℕ, zero, suc, ◌+◌, ◌*◌, ◌^◌, ◌≤◌, ◌<◌, ◌≡◌, refl, ap, ◌⊎◌, arith, lt→ltb, le→ltb, lt-or_le, inl,
  inr,
}
use cpp_project.Run.{ok, fault, diverges}
use cpp_project.Words.{mul64}
use cpp_project.Cannon.HashMap.{power_loop, next_power}

doubled : (k size : ℕ) → 2 ^ k < size → size ≤ 2 ^ 63 → mul64 (2 ^ k) 2 ≡ 2 ^ suc k
unfolding mul64
doubled k size lt le = omega (arith, pow-suc 2 k)

-- `p` is the first power of two from `2 ^ k` on that is not below `size`: it is `2 ^ k`, or half of
-- it is below `size`.
pub record IsNextPower (k size p : ℕ) : Type 0 where
  pub from_start : 2 ^ k ≤ p
  pub enough : size ≤ p
  pub positive : 0 < p
  pub least : (p ≡ 2 ^ k) ⊎ (p < 2 * size)
  pub exponent : ℕ
  pub is_power : p ≡ 2 ^ exponent

power_loop_lem :
    (fuel k size : ℕ)
    → k ≤ 63
    → size ≤ 2 ^ 63
    → 63 < k + fuel
    → (p : ℕ) × (power_loop fuel (2 ^ k) size ≡ ok p) × IsNextPower k size p
unfolding power_loop
power_loop_lem zero k size bound le enough = absurd (omega arith)
power_loop_lem (suc fuel) k size bound le enough = elim (lt-or_le (2 ^ k) size) [
  | inl lt ↦ elim (eq-or-lt_of_le bound) [
    | inl top ↦ absurd (omega (arith, ap (λ n. 2 ^ n) top))
    | inr below ↦
        let (p, run, next) = power_loop_lem fuel (suc k) size below le (omega arith) in
        (
          p,
          rw (doubled k size lt le, power_loop, lt→ltb _ _ lt) run,
          record {
            from_start = omega (arith, next.from_start, pow-suc 2 k);
            enough = next.enough;
            positive = next.positive;
            least = ground (arith, next.least, pow-suc 2 k);
            exponent = next.exponent;
            is_power = next.is_power;
          },
        )
  ]
  | inr ge ↦ (
    2 ^ k,
    rw (power_loop, le→ltb _ _ ge),
    record {
      from_start = omega arith;
      enough = ge;
      positive = one-le-pow k 2 (omega arith);
      least = inl refl;
      exponent = k;
      is_power = refl;
    },
  )
]

-- Up to 2 ^ 63 entries the loop ends, with the first power of two from 16 on that is not below the
-- number of entries.
pub next_power_lem :
    (size : ℕ) → size ≤ 2 ^ 63 → (p : ℕ) × (next_power size ≡ ok p) × IsNextPower 4 size p
unfolding next_power
next_power_lem size le = power_loop_lem 61 4 size (omega arith) le (omega arith)

power_loop_zero : (fuel size : ℕ) → 0 < size → power_loop fuel 0 size ≡ fault diverges
unfolding power_loop mul64
power_loop_zero zero size pos = refl
power_loop_zero (suc fuel) size pos = rw (lt→ltb _ _ pos) (power_loop_zero fuel size pos)

pub pow_two-le : (k j : ℕ) → k ≤ j → 2 ^ k ≤ 2 ^ j
pow_two-le k j le = pow-le-pow_right (omega arith) le

power_loop_diverges :
    (fuel k size : ℕ) → k ≤ 63 → 2 ^ 63 < size → power_loop fuel (2 ^ k) size ≡ fault diverges
unfolding power_loop
power_loop_diverges zero k size bound big = refl
power_loop_diverges (suc fuel) k size bound big =
    rw (lt→ltb (2 ^ k) size (omega (arith, pow_two-le k 63 bound))) (elim (eq-or-lt_of_le bound) [
      | inl top ↦ rw (top, wrapped) (power_loop_zero fuel size (omega arith))
      | inr below ↦ rw (grown k below) (power_loop_diverges fuel (suc k) size below big)
    ])
  where
    wrapped : mul64 (2 ^ 63) 2 ≡ 0
    wrapped = unfold mul64 in refl

    grown : (k : ℕ) → k < 63 → mul64 (2 ^ k) 2 ≡ 2 ^ suc k
    grown k below = unfold mul64 in omega (arith, pow-suc 2 k, pow_two-le k 62 (omega arith))

-- Beyond that the loop does not end, whatever the number of rounds.
pub next_power_diverges : (fuel size : ℕ) → 2 ^ 63 < size → power_loop fuel 16 size ≡ fault diverges
next_power_diverges fuel size big = power_loop_diverges fuel 4 size (omega arith) big
