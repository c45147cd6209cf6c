-- ===== src/Tests/CannonTests.antt =====
-- A table of two entries, with keys and values of one byte.
use cpp_project.Prelude.{
  ℕ, zero, suc, ◌+◌, ◌*◌, ◌^◌, ◌≡◌, ◌⊎◌, refl, Bool, List, [], ◌∷◌, Option, none, some, true, false,
  length, count, SameElements, arith, get_elem?, take, map,
}
use mathlib.Core.List.{flatten}
use cpp_project.Run.{ok, fault, diverges, IsOk}
use cpp_project.Memory.{read, bytes_equal}
use cpp_project.Memory.Records.{records}
use cpp_project.Cannon.BytesHash.{city_hash}
use cpp_project.Cannon.BytesHash.InBounds.{city_hash-IsOk}
use cpp_project.Cannon.BytesHash.Murmur.{murmur2_at, murmur2-IsOk}
use cpp_project.Cannon.HashMap
use cpp_project.Cannon.HashMap.{HashMap}
use cpp_project.Cannon.HashMap.Power.{IsNextPower, next_power_lem, next_power_diverges}
use cpp_project.Cannon.HashMap.Invariant.{IsLoaded}
use cpp_project.Cannon.HashMap.Load.{load_kvs-IsLoaded}
use cpp_project.Cannon.HashMap.Seek.{has_key, seek-cases}
use cpp_project.Cannon.Lookup.{lookup, DistinctKeys, seek-lookup}
use cpp_project.Cannon.Storage.{FileSystem, Storage, Outcome, returned, length_error, load}
use cpp_project.Cannon.Storage
use cpp_project.Cannon.Storage.Load.{load-IsLoaded, load_failed, load_unreadable}
use cpp_project.Cannon.Server.{Status, get}
use cpp_project.Cannon.Server.Answers.{answers, get-answers}

city_hash-IsOk_example : IsOk (city_hash (1 ∷ 2 ∷ 3 ∷ []))
city_hash-IsOk_example = city_hash-IsOk (1 ∷ 2 ∷ 3 ∷ [])

murmur2-IsOk_example : IsOk (murmur2_at (1 ∷ 2 ∷ 3 ∷ 4 ∷ 5 ∷ 6 ∷ 7 ∷ []) 7)
murmur2-IsOk_example = murmur2-IsOk (1 ∷ 2 ∷ 3 ∷ 4 ∷ 5 ∷ 6 ∷ 7 ∷ [])

next_power_lem_example : (p : ℕ) × (HashMap.next_power 17 ≡ ok p) × IsNextPower 4 17 p
next_power_lem_example = next_power_lem 17 (omega arith)

next_power_diverges_example : HashMap.power_loop 3 16 (2 ^ 63 + 1) ≡ fault diverges
next_power_diverges_example = next_power_diverges 3 (2 ^ 63 + 1) (omega arith)

abbrev two_entries : List ℕ
two_entries = 5 ∷ 50 ∷ 7 ∷ 70 ∷ []

load_kvs-IsLoaded_example :
    (m : HashMap) × (rs : List (List ℕ)) × (HashMap.load_kvs (HashMap.new 1 1) two_entries ≡ ok m)
    × IsLoaded m rs
    × SameElements rs (records 2 2 two_entries)
    × (m.key_size ≡ 1)
    × (m.value_size ≡ 1)
load_kvs-IsLoaded_example =
    load_kvs-IsLoaded 1 1 2 two_entries (omega arith) (omega arith) (omega arith)

abbrev table : HashMap
table = load_kvs-IsLoaded_example.0

abbrev sorted : List (List ℕ)
sorted = load_kvs-IsLoaded_example.1

abbrev loaded : IsLoaded table sorted
loaded = load_kvs-IsLoaded_example.3

key_one : length {A = ℕ} (7 ∷ []) ≡ table.key_size
key_one = omega (arith, load_kvs-IsLoaded_example.5)

seek-cases_example :
    ((HashMap.seek table (7 ∷ []) ≡ ok none) × (count (has_key table.key_size (7 ∷ [])) sorted ≡ 0))
    ⊎ ((p : ℕ) × (r : List ℕ) × (get_elem? sorted p ≡ some r)
        × (take table.key_size r ≡ 7 ∷ [])
        × (HashMap.seek table (7 ∷ []) ≡ ok (some (p * table.kv_size + table.key_size))))
seek-cases_example = seek-cases loaded (7 ∷ []) key_one

two_distinct : (k : ℕ) → k ≡ 1 → DistinctKeys k (records 2 2 two_entries)
unfolding count bytes_equal records
two_distinct k e [] = rw e (omega arith)
two_distinct k e (a ∷ []) = rw e (ground arith)
two_distinct k e (a ∷ b ∷ key) = rw e (ground arith)

seek-lookup_example :
    ((HashMap.seek table (7 ∷ []) ≡ ok none)
      × (lookup table.key_size (7 ∷ []) (records 2 2 two_entries) ≡ none))
    ⊎ ((offset : ℕ) × (value : List ℕ) × (HashMap.seek table (7 ∷ []) ≡ ok (some offset))
        × (read table.table offset table.value_size ≡ ok value)
        × (lookup table.key_size (7 ∷ []) (records 2 2 two_entries) ≡ some value))
seek-lookup_example =
    seek-lookup loaded (records 2 2 two_entries) (7 ∷ []) load_kvs-IsLoaded_example.4
      (two_distinct table.key_size load_kvs-IsLoaded_example.5) key_one

-- The directory 0 holds the files 1 and 2; the directory 3 holds 1 and a file that is not there.
dir_exists : ℕ → Option Bool
dir_exists n = some true

dir_entries : ℕ → Option (List ℕ)
dir_entries zero = some (1 ∷ 2 ∷ [])
dir_entries (suc n) = some (1 ∷ 4 ∷ [])

file_contents : ℕ → Option (List ℕ)
file_contents (suc zero) = some (5 ∷ 50 ∷ [])
file_contents (suc (suc zero)) = some (7 ∷ 70 ∷ [])
file_contents n = none

abbrev disk : FileSystem
disk = record {
  FilePath = ℕ;
  exists = dir_exists;
  is_directory = dir_exists;
  directory_entries = dir_entries;
  contents = file_contents;
}

load-IsLoaded_example :
    (s : Storage) × (rs : List (List ℕ)) × (load disk (Storage.new 1 1) 0 ≡ ok (s, returned true))
    × IsLoaded s.store rs
    × SameElements rs (records 2 2 (flatten ((5 ∷ 50 ∷ []) ∷ (7 ∷ 70 ∷ []) ∷ [])))
    × (s.store.key_size ≡ 1)
    × (s.store.value_size ≡ 1)
unfolding dir_exists dir_entries file_contents flatten
load-IsLoaded_example =
    load-IsLoaded disk 1 1 2 0 (1 ∷ 2 ∷ []) ((5 ∷ 50 ∷ []) ∷ (7 ∷ 70 ∷ []) ∷ []) (omega arith) refl
      refl refl (refl, (refl, tt)) refl (omega arith)

abbrev filled : Storage
filled = load-IsLoaded_example.0

get-answers_example :
    get filled
      (record { status = Status.all_ok; value_statuses = []; values = [] })
      (record { keys = flatten ((7 ∷ []) ∷ (9 ∷ []) ∷ []) })
    ≡ ok (
        answers filled.store.value_size
          (map
            (λ key.
              lookup filled.store.key_size key
                (records 2 2 (flatten ((5 ∷ 50 ∷ []) ∷ (7 ∷ 70 ∷ []) ∷ []))))
            ((7 ∷ []) ∷ (9 ∷ []) ∷ []))
          (record { status = Status.all_ok; value_statuses = []; values = [] }))
unfolding flatten
get-answers_example =
    get-answers load-IsLoaded_example.3 (records 2 2 two_entries) load-IsLoaded_example.4
      (two_distinct filled.store.key_size load-IsLoaded_example.5)
      (omega (arith, load-IsLoaded_example.5)) ((7 ∷ []) ∷ (9 ∷ []) ∷ [])
      (record { status = Status.all_ok; value_statuses = []; values = [] })
      (omega (arith, load-IsLoaded_example.5))

load_failed_example : Storage.new 1 1 ≡ Storage.new 1 1
unfolding dir_exists dir_entries file_contents load
load_failed_example =
    load_failed disk (Storage.new 1 1) (Storage.new 1 1) 3 (returned false) refl (λ e. cc)

load_unreadable_example :
    (load disk (Storage.new 1 1) 3 ≡ ok (Storage.new 1 1, returned false))
    ⊎ (load disk (Storage.new 1 1) 3 ≡ ok (Storage.new 1 1, length_error))
unfolding dir_exists dir_entries file_contents
load_unreadable_example = load_unreadable disk (Storage.new 1 1) 3 (1 ∷ []) [] 4 refl refl refl refl
