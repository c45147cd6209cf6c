-- ===== src/InternalStorage.antt =====
-- hash_table/internal_storage/immutable_hash_table.h: entries in one vector that the constructor
-- takes over and sorts in place by the hash of their keys, with an index of where each hash begins.
-- The pointer that a search returns is the place in the vector.
pub mod Placing
pub mod Built
pub mod Find
use cpp_project.Prelude.{
  ℕ, zero, suc, ◌+◌, ◌-◌, ◌*◌, bit_and, Bool, true, false, ◌&&◌, List, [], ◌∷◌, length, replicate,
  Option, none, some, ltb, leb, ◌==◌, if◌then◌else◌,
}
use cpp_project.Run.{Run, ok, fault, diverges, ◌>>=◌, at, put}
use cpp_project.HashTable.{long_max, power_loop}

-- The loop is that of the other table.
unfoldable pub next_power : ℕ → Run ℕ
next_power size = if leb long_max size then ok long_max else power_loop 61 16 size

-- A `std::pair`.
pub record Entry (K V : Type 0) : Type 0 where
  pub first : K
  pub second : V

pub record SortedTable (K V : Type 0) : Type 0 where
  pub table : List (Entry K V)
  pub indexes : List ℕ
  pub size_mask : ℕ

-- The second loop turns counts into where each hash begins.
unfoldable pub begins_loop : ℕ → List ℕ → List ℕ
begins_loop index [] = []
begins_loop index (n ∷ indexes) = index ∷ begins_loop (index + n) indexes

module _ {K V : Type 0} (hash : K → ℕ) where
  -- `std::hash<keyT>()(entry.first) & _size_mask`
  abbrev pub slot : ℕ → Entry K V → ℕ
  slot mask entry = bit_and (hash entry.first) mask

  -- The first loop counts the entries of each hash.
  unfoldable pub count_loop : ℕ → List (Entry K V) → List ℕ → Run (List ℕ)
  count_loop mask [] indexes = ok indexes
  count_loop mask (kv ∷ kvs) indexes = do
    n ← at indexes (slot mask kv)
    indexes' ← put indexes (slot mask kv) (n + 1)
    count_loop mask kvs indexes'

  -- The third loop moves the entries to their places.
  unfoldable pub place_loop :
      ℕ → ℕ → List ℕ → List ℕ → List (Entry K V) → ℕ → Run (List (Entry K V))
  place_loop zero mask indexes cur_indexes table i = fault diverges
  place_loop (suc fuel) mask indexes cur_indexes table i = elim (ltb i (length table)) [
    | true ↦ do
      entry ← at table i
      let h = slot mask entry
      cur_index ← at cur_indexes h
      start_index ← at indexes h
      elim (leb start_index i && leb i cur_index) [
        | true ↦ place_loop fuel mask indexes cur_indexes table (i + 1)
        | false ↦ do
          other ← at table cur_index
          table' ← put table i other
          table'' ← put table' cur_index entry
          cur_indexes' ← put cur_indexes h (cur_index + 1)
          place_loop fuel mask indexes cur_indexes' table'' i
      ]
    | false ↦ ok table
  ]

  -- The constructor. The third loop makes at most two rounds for each entry.
  unfoldable pub construct : List (Entry K V) → Run (SortedTable K V)
  construct kvs = do
    size ← next_power (length kvs)
    let mask = size - 1
    counts ← count_loop mask kvs (replicate size 0)
    let indexes = begins_loop 0 counts
    table ← place_loop (2 * length kvs + 1) mask indexes indexes kvs 0
    ok (record { table = table; indexes = indexes; size_mask = mask })

  module _ (key_eq : K → K → Bool) where
    -- `while (s < e)`, with the count of rounds left.
    unfoldable pub find_loop : ℕ → List (Entry K V) → K → ℕ → Run (Option ℕ)
    find_loop zero table key s = ok none
    find_loop (suc rounds) table key s = do
      entry ← at table s
      elim (key_eq entry.first key) [
        | true ↦ ok (some s)
        | false ↦ find_loop rounds table key (s + 1)
      ]

    unfoldable pub find : SortedTable K V → K → Run (Option ℕ)
    find t key = do
      let h = bit_and (hash key) t.size_mask
      s ← at t.indexes h
      e ← (if h == t.size_mask then ok (length t.table) else at t.indexes (h + 1))
      find_loop (e - s) t.table key s
