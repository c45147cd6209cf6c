-- ===== src/Tests/HashTableTests.antt =====
-- The chained table run, and the witnesses of its theorems.
use cpp_project.Prelude.{
  ℕ, ◌+◌, ◌^◌, ◌<◌, ◌⊎◌, ◌≤◌, ◌≡◌, refl, true, false, List, [], ◌∷◌, Option, none, some, ◌==◌,
  if◌then◌else◌, arith,
}
use cpp_project.Run.{Run, ok, fault, exception, ◌>>=◌}
use cpp_project.Cannon.HashMap.Power.{IsNextPower}
use cpp_project.HashTable
use cpp_project.HashTable.{TableEntry, Table}
use cpp_project.HashTable.Chains.{first_or}
use cpp_project.HashTable.Invariant.{IsTable, entry_for}
use cpp_project.HashTable.Construction.{new-IsTable, new-cases}
use cpp_project.HashTable.Map.{first_refusal, insert-entry_for}
use cpp_project.HashTable.Lifecycle.{load_table, begin_loading-IsTable, load_table-find}

abbrev entry : ℕ → ℕ → TableEntry ℕ
entry key val = record { key = key; val = val }

-- Two of the three keys share the last bucket of 16, and one comes twice.
abbrev entries : List (TableEntry ℕ)
entries = entry 15 1 ∷ entry 31 2 ∷ entry 15 3 ∷ entry 4 5 ∷ []

abbrev opened : Table ℕ
opened = (new-IsTable {V = ℕ} HashTable.hash_unsigned 100 (omega arith)).0

opened-IsTable : IsTable HashTable.hash_unsigned opened
opened-IsTable = (new-IsTable {V = ℕ} HashTable.hash_unsigned 100 (omega arith)).2

new-cases_example :
    ((100 ≤ 2 ^ 59)
      × ((t : Table ℕ) × (HashTable.new 100 ≡ ok t)
          × IsTable HashTable.hash_unsigned t
          × (t.used ≡ 0)
          × (t.loading ≡ false)
          × IsNextPower 4 100 t.size))
    ⊎ ((2 ^ 59 < 100) × (HashTable.new {V = ℕ} 100 ≡ fault exception))
new-cases_example = new-cases HashTable.hash_unsigned 100

buckets_for : Run ℕ
unfolding HashTable.new HashTable.next_power HashTable.allocate
buckets_for = do t ← HashTable.new {V = ℕ} 17; ok t.size

buckets_32 : buckets_for ≡ ok 32
unfolding buckets_for
buckets_32 = refl

load_table-find_example :
    (t' : Table ℕ) × (load_table HashTable.hash_unsigned entries opened ≡ ok t')
    × IsTable HashTable.hash_unsigned t'
    × ((key : ℕ)
        → HashTable.find HashTable.hash_unsigned t' key ≡ ok (HashTable.find_entry entries key))
load_table-find_example =
    load_table-find HashTable.hash_unsigned entries opened opened-IsTable (omega arith)

begun : Table ℕ
begun = HashTable.begin_loading HashTable.hash_unsigned opened

insert-entry_for_example :
    (t' : Table ℕ) × (o : Option (TableEntry ℕ)) × (HashTable.insert HashTable.hash_unsigned begun
        15 1
      ≡ ok (t', o))
    × IsTable HashTable.hash_unsigned t'
    × (t'.loading ≡ true)
    × (t'.used ≤ begun.used + 1)
    × (o ≡ first_refusal (entry_for HashTable.hash_unsigned begun 15) (entry 15 1))
    × ((j : ℕ)
        → entry_for HashTable.hash_unsigned t' j
          ≡ first_or
              (entry_for HashTable.hash_unsigned begun j)
              (if 15 == j then some (entry 15 1) else none))
unfolding begun
insert-entry_for_example =
    let is = begin_loading-IsTable HashTable.hash_unsigned opened opened-IsTable in
    insert-entry_for HashTable.hash_unsigned begun 15 1 is.0 is.1 (omega (arith, is.2))

loaded : Run (Option (TableEntry ℕ))
unfolding HashTable.new HashTable.allocate HashTable.next_power load_table HashTable.find
    HashTable.hash_unsigned
loaded = do
  t ← HashTable.new 16
  t' ← load_table HashTable.hash_unsigned entries t
  HashTable.find HashTable.hash_unsigned t' 15

loaded_first : loaded ≡ ok (some (entry 15 1))
unfolding loaded HashTable.rehash HashTable.insert HashTable.insert_at HashTable.begin_loading
    HashTable.end_loading
loaded_first = refl
