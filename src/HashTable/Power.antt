-- ===== src/HashTable/Power.antt =====
-- The number of buckets in hash_table/immutable_hash_table.h. The loop is that of
-- cannon/src/cannon/immutable_hash_map.cpp behind a test that keeps it from running on.
use cpp_project.Prelude.{
  ℕ, zero, suc, ◌^◌, lt-or_le, false, ◌≤◌, ◌<◌, ◌≡◌, ◌∙◌, refl, ap, inl, inr, leb, ltb,
  if◌then◌else◌, arith,
}
use cpp_project.Run.{ok}
use cpp_project.Words.{mul64}
use cpp_project.HashTable.{power_loop, next_power, long_max}
use cpp_project.Cannon.HashMap
use cpp_project.Cannon.HashMap.Power.{IsNextPower, next_power_lem, pow_two-le}

power_loop-same : (fuel i size : ℕ) → power_loop fuel i size ≡ HashMap.power_loop fuel i size
unfolding power_loop HashMap.power_loop
power_loop-same zero i size = refl
power_loop-same (suc fuel) i size =
    ap (λ rest. if ltb i size then rest else ok i) (power_loop-same fuel (mul64 i 2) size)

-- What the number of buckets is for a count.
pub record IsCapacity (size p : ℕ) : Type 0 where
  pub positive : 0 < p
  pub enough : size ≤ long_max → size ≤ p

pub next_power-IsNextPower :
    (size : ℕ) → size < long_max → (p : ℕ) × (next_power size ≡ ok p) × IsNextPower 4 size p
unfolding next_power
next_power-IsNextPower size small =
    let (p, run, next) = next_power_lem size (omega arith) in
    let small_now : leb long_max size ≡ false = ground arith in
    (p, rw small_now (power_loop-same 61 16 size ∙ (unfold HashMap.next_power in run)), next)

-- From `long_max` on the number of buckets is that.
pub next_power-big : (size : ℕ) → long_max ≤ size → next_power size ≡ ok long_max
unfolding next_power
next_power-big size big = ground arith

pub next_power-IsCapacity : (size : ℕ) → (p : ℕ) × (next_power size ≡ ok p) × IsCapacity size p
next_power-IsCapacity size = elim (lt-or_le size long_max) [
  | inl small ↦
      let (p, run, next) = next_power-IsNextPower size small in
      (p, run, record { positive = next.positive; enough = λ le. next.enough })
  | inr big ↦
      (long_max, next_power-big size big, record { positive = omega arith; enough = λ le. le })
]

-- A power of two above 2 ^ 59 is 2 ^ 60 at least.
pub next_power-wide : (size p : ℕ) → IsNextPower 4 size p → 2 ^ 59 < size → 2 ^ 60 ≤ p
next_power-wide size p next big = elim (lt-or_le next.exponent 60) [
  | inl low ↦
      absurd (omega (arith, next.enough, next.is_power, pow_two-le next.exponent 59 (omega arith)))
  | inr high ↦ omega (arith, next.is_power, pow_two-le 60 next.exponent high)
]
