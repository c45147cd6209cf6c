-- ===== src/Quicksort/Steps.antt =====
-- One round of the partition.
use cpp_project.Prelude.{
  ℕ, zero, suc, ◌+◌, ◌≡◌, refl, ap, ℤ, pos, decrement, less_int, true, false, List, lt→ltb, le→ltb,
  arith,
}
use cpp_project.Run.{ok, ◌>>=◌, at}
use cpp_project.Quicksort.{swap, partition_loop}
use cpp_project.Quicksort.Swaps.{before}

module _ (pivot : ℤ) where
  last_place : (j n : ℕ) → before (j + suc n) ≡ pos (j + n)
  last_place j n = ap before {y = suc (j + n)} (omega arith)

  module _ (fuel : ℕ) (nums : List ℤ) (i j n : ℕ) (x : ℤ) (at_j : at nums j ≡ ok x) where
    pub step_low :
        less_int x pivot ≡ true
        → partition_loop (suc fuel) nums pivot i j (before (j + suc n)) ≡ (
            swap nums i j >>= λ nums'.
            partition_loop fuel nums' pivot (i + 1) (j + 1) (before (j + suc n)))
    unfolding partition_loop
    step_low low =
        rw (last_place j n, partition_loop, le→ltb (j + n) j (omega arith), at_j, ◌>>=◌, low)

    pub step_same :
        less_int x pivot ≡ false
        → less_int pivot x ≡ false
        → partition_loop (suc fuel) nums pivot i j (before (j + suc n))
          ≡ partition_loop fuel nums pivot i (j + 1) (before (j + suc n))
    unfolding partition_loop
    step_same low high =
        rw (last_place j n, partition_loop, le→ltb (j + n) j (omega arith), at_j, ◌>>=◌, low, high)

    pub step_high :
        less_int x pivot ≡ false
        → less_int pivot x ≡ true
        → partition_loop (suc fuel) nums pivot i j (before (j + suc n))
          ≡ (swap nums j (j + n) >>= λ nums'. partition_loop fuel nums' pivot i j (before (j + n)))
    unfolding partition_loop
    step_high low high = rw (
      last_place j n,
      partition_loop,
      le→ltb (j + n) j (omega arith),
      at_j,
      ◌>>=◌,
      low,
      high,
      decremented (j + n),
    )
      where
        decremented : (k : ℕ) → decrement (pos k) ≡ before k
        decremented zero = refl
        decremented (suc k) = refl

  pub step_stop :
      (fuel : ℕ) (nums : List ℤ) (i j : ℕ)
      → partition_loop (suc fuel) nums pivot i j (before j) ≡ ok (nums, i, before j)
  unfolding partition_loop
  step_stop fuel nums i zero = refl
  step_stop fuel nums i (suc j) = rw (partition_loop, lt→ltb j (suc j) (omega arith))
