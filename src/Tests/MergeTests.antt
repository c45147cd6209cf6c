-- ===== src/Tests/MergeTests.antt =====
-- Two lists made and merged, and the witness of the theorem on merging.
use cpp_project.Prelude.{ℕ, ◌≡◌, inl, inr, refl, List, [], ◌∷◌, none, some, zero, suc, arith}
use cpp_project.Run.{Run, ok, ◌>>=◌}
use cpp_project.MergeSortedLists
use cpp_project.MergeSortedLists.{Heap, merge_sorted_lists, construct_list, print_list}
use cpp_project.MergeSortedLists.Chain.{Entry, head_of, node_of, Apart}
use cpp_project.MergeSortedLists.Merge.{Merged, merge_sorted_lists-Merged}

-- The lists 1, 4 and 2, 4.
abbrev two_lists : Heap
two_lists =
    some (node_of 1 (some 1))
    ∷ some (node_of 4 none)
    ∷ some (node_of 2 (some 3))
    ∷ some (node_of 4 none)
    ∷ []

abbrev list1 : List Entry
list1 = (0, 1) ∷ (1, 4) ∷ []

abbrev list2 : List Entry
list2 = (2, 2) ∷ (3, 4) ∷ []

apart : Apart list1 list2
apart zero = inr (omega arith, (omega arith, tt))
apart (suc zero) = inr (omega arith, (omega arith, tt))
apart (suc (suc n)) = inl (omega arith, (omega arith, tt))

merge_sorted_lists-Merged_example :
    (heap' : Heap) × (zs : List Entry) × (merge_sorted_lists 4 two_lists (some 0) (some 2)
      ≡ ok (heap', head_of zs))
    × Merged two_lists list1 list2 heap' zs
merge_sorted_lists-Merged_example =
    merge_sorted_lists-Merged 4 two_lists list1 list2 (omega arith) (refl, (refl, tt))
      (refl, (refl, tt)) ((omega arith, tt), (tt, tt)) ((omega arith, tt), (tt, tt)) apart

made_and_merged : Run (List ℕ)
unfolding construct_list merge_sorted_lists print_list
made_and_merged = do
  made1 ← construct_list (1 ∷ 4 ∷ []) []
  made2 ← construct_list (2 ∷ 4 ∷ []) made1.0
  merged ← merge_sorted_lists 4 made2.0 made1.1 made2.1
  print_list 5 merged.0 merged.1

made_and_merged_sorted : made_and_merged ≡ ok (1 ∷ 2 ∷ 4 ∷ 4 ∷ [])
unfolding made_and_merged MergeSortedLists.construct_loop MergeSortedLists.merge_loop
    MergeSortedLists.pick MergeSortedLists.load MergeSortedLists.link MergeSortedLists.link_tail
    MergeSortedLists.live MergeSortedLists.new_node
made_and_merged_sorted = refl
