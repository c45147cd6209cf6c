-- ===== src/Tests/SortedTests.antt =====
-- The table that sorts its entries run, and the witness of its theorem.
use cpp_project.Prelude.{
  ℕ, ◌≡◌, ◌⊎◌, refl, List, [], ◌∷◌, Option, none, some, ◌==◌, ==_iff, count, get_elem?,
  SameElements,
}
use cpp_project.Run.{Run, ok, ◌>>=◌, at, put}
use cpp_project.Words.{mul64}
use cpp_project.HashTable.{power_loop}
use cpp_project.InternalStorage.{
  Entry, SortedTable, construct, find, next_power, count_loop, begins_loop, place_loop, find_loop,
}
use cpp_project.InternalStorage.Find.{has_key, find-construct}

abbrev entry : ℕ → ℕ → Entry ℕ ℕ
entry key val = record { first = key; second = val }

-- The keys 33, 1 and 17 share a bucket of 16.
abbrev entries : List (Entry ℕ ℕ)
entries = entry 33 1 ∷ entry 4 2 ∷ entry 1 3 ∷ entry 0 4 ∷ entry 17 5 ∷ []

abbrev same_hash : ℕ → ℕ
same_hash key = key

-- Where the search finds a key in the table that is constructed.
search : ℕ → Run (Option ℕ)
unfolding construct find next_power power_loop mul64 count_loop begins_loop place_loop find_loop at
    put
search key = do t ← construct same_hash entries; find same_hash ◌==◌ t key

search_there : search 17 ≡ ok (some 2)
unfolding search construct find next_power power_loop mul64 count_loop begins_loop place_loop
    find_loop at put
search_there = refl

search_missing : search 49 ≡ ok none
unfolding search construct find next_power power_loop mul64 count_loop begins_loop place_loop
    find_loop at put
search_missing = refl

find-construct_example :
    (t : SortedTable ℕ ℕ) × (construct same_hash entries ≡ ok t)
    × SameElements t.table entries
    × ((key : ℕ)
        → ((find same_hash ◌==◌ t key ≡ ok none) × (count (has_key same_hash ◌==◌ key) entries ≡ 0))
          ⊎ ((p : ℕ) × (e : Entry ℕ ℕ) × (find same_hash ◌==◌ t key ≡ ok (some p))
              × (get_elem? t.table p ≡ some e)
              × (e.first ≡ key)))
find-construct_example = find-construct same_hash ◌==◌ entries ==_iff
