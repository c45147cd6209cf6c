-- ===== src/Quicksort.antt =====
-- qsort/main.cpp: quicksort in place, with a partition in three parts. A place is an `int`.
pub mod Swaps
pub mod Parts
pub mod Steps
pub mod Partition
pub mod Order
pub mod Pivot
pub mod Calls
pub mod Sorting
use cpp_project.Prelude.{
  ℕ, zero, suc, ◌+◌, ◌/◌, ℤ, pos, negsuc, increment, decrement, less_int, ◌==ℤ◌, Bool, true, false,
  List, if◌then◌else◌,
}
use cpp_project.Run.{Run, ok, fault, out_of_bounds, diverges, ◌>>=◌, at, put, add_int}

unfoldable pub swap : List ℤ → ℕ → ℕ → Run (List ℤ)
swap nums a b = do x ← at nums a; y ← at nums b; nums' ← put nums a y; put nums' b x

abbrev pub max_int : ℤ → ℤ → ℤ
max_int a b = if less_int a b then b else a

abbrev pub min_int : ℤ → ℤ → ℤ
min_int a b = if less_int b a then b else a

-- `while (j <= k)`: the vector, `i` and `k`.
unfoldable pub partition_loop : ℕ → List ℤ → ℤ → ℕ → ℕ → ℤ → Run (List ℤ × ℕ × ℤ)
partition_loop zero nums pivot i j k = fault diverges
partition_loop (suc fuel) nums pivot i j (negsuc k) = ok (nums, i, negsuc k)
partition_loop (suc fuel) nums pivot i j (pos k) = elim (less_int (pos k) (pos j)) [
  | true ↦ ok (nums, i, pos k)
  | false ↦ do
    x ← at nums j
    elim (less_int x pivot) [
      | true ↦ do nums' ← swap nums i j; partition_loop fuel nums' pivot (i + 1) (j + 1) (pos k)
      | false ↦ elim (less_int pivot x) [
        | true ↦ do nums' ← swap nums j k; partition_loop fuel nums' pivot i j (decrement (pos k))
        | false ↦ partition_loop fuel nums pivot i (j + 1) (pos k)
      ]
    ]
]

-- Two elements are put in order.
unfoldable pub sort_two : List ℤ → ℕ → ℕ → Run (List ℤ)
sort_two nums s e = do x ← at nums s; y ← at nums e; if less_int y x then swap nums s e else ok nums

-- `min(max(a, b), max(b, c))`, where both `a` and `c` are the last element.
unfoldable pub pivot_of : List ℤ → ℕ → ℕ → Run ℤ
pivot_of nums s e = do
  a ← at nums e
  sum ← add_int e s
  b ← at nums (sum / 2)
  c ← at nums e
  ok (min_int (max_int a b) (max_int b c))

-- A round of the partition takes an element. A range that begins below 0 is read there.
unfoldable pub qsort : ℕ → List ℤ → ℤ → ℤ → Run (List ℤ)
qsort zero nums s e = fault diverges
qsort (suc fuel) nums s (negsuc e) = if less_int s (negsuc e) then fault out_of_bounds else ok nums
qsort (suc fuel) nums (negsuc s) (pos e) = fault out_of_bounds
qsort (suc fuel) nums (pos s) (pos e) = elim (less_int (pos s) (pos e)) [
  | false ↦ ok nums
  | true ↦ elim (pos (s + 1) ==ℤ pos e) [
    | true ↦ sort_two nums s e
    | false ↦ do
      pivot ← pivot_of nums s e
      r ← partition_loop (e + 2) nums pivot s s (pos e)
      nums' ← qsort fuel r.0 (pos s) (decrement (pos r.1))
      qsort fuel nums' (increment r.2) (pos e)
  ]
]
