-- ===== src/Tests/QuicksortTests.antt =====
-- The sort of a vector, and the witness of its theorem.
use cpp_project.Prelude.{suc, ◌≡◌, refl, ℤ, pos, negsuc, List, [], ◌∷◌, length, SameElements, arith}
use cpp_project.Run.{ok, at, put, add_int}
use cpp_project.Quicksort.{swap, partition_loop, sort_two, pivot_of, qsort}
use cpp_project.Quicksort.Swaps.{before}
use cpp_project.Quicksort.Order.{IsSorted}
use cpp_project.Quicksort.Sorting.{qsort-IsSorted}

abbrev nums : List ℤ
nums = pos 1 ∷ pos 3 ∷ negsuc 4 ∷ pos 0 ∷ pos 1 ∷ pos 9 ∷ pos 1 ∷ []

sorted_nums :
    qsort 8 nums (pos 0) (pos 6)
    ≡ ok (negsuc 4 ∷ pos 0 ∷ pos 1 ∷ pos 1 ∷ pos 1 ∷ pos 3 ∷ pos 9 ∷ [])
unfolding qsort partition_loop pivot_of sort_two swap at put add_int
sorted_nums = refl

qsort-IsSorted_example :
    (sorted : List ℤ) × (qsort (suc (length nums)) nums (pos 0) (before (length nums)) ≡ ok sorted)
    × SameElements sorted nums
    × IsSorted sorted
qsort-IsSorted_example = qsort-IsSorted nums (omega arith)
