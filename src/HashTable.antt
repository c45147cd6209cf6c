-- ===== src/HashTable.antt =====
-- hash_table/immutable_hash_table.h and hash_function.h: a table of chained buckets that is filled
-- while it is loading, and searched afterwards. The list of a bucket is the chain from its head;
-- a node belongs to one chain, and is moved whole when the table is rebuilt.
pub mod Chains
pub mod Rehash
pub mod Power
pub mod Invariant
pub mod Construction
pub mod Map
pub mod Lifecycle
use cpp_project.Prelude.{
  ℕ, zero, suc, ◌+◌, ◌-◌, ◌*◌, ◌%◌, ◌^◌, bit_and, Bool, true, false, List, [], ◌∷◌, map, replicate,
  Option, none, some, ltb, leb, ◌==◌, ◌||◌, if◌then◌else◌,
}
use cpp_project.Run.{Run, ok, fault, diverges, exception, ◌>>=◌, at, put}
use cpp_project.Words.{add64, mul64, size_mod}

-- `hash<_Tp>`, the cast of an integer of `width` bits to `size_t`. A key is its bit pattern.
unfoldable pub hash_unsigned : ℕ → ℕ
hash_unsigned val = val % size_mod

unfoldable pub hash_signed : ℕ → ℕ → ℕ
hash_signed width val = if ltb val (2 ^ (width - 1)) then val else val + size_mod - 2 ^ width

abbrev pub long_max : ℕ
long_max = 2 ^ 63 - 1

-- `while (i < size) i *= 2`
unfoldable pub power_loop : ℕ → ℕ → ℕ → Run ℕ
unfolding mul64
power_loop zero i size = fault diverges
power_loop (suc fuel) i size =
    let rest = power_loop fuel (mul64 i 2) size in if ltb i size then rest else ok i

-- From 16 on there are 60 values up to 2 ^ 63.
unfoldable pub next_power : ℕ → Run ℕ
unfolding power_loop
next_power size = if leb long_max size then ok long_max else power_loop 61 16 size

pub record TableEntry (V : Type 0) : Type 0 where
  pub key : ℕ
  pub val : V

pub record Table (V : Type 0) : Type 0 where
  pub buckets : List (List (TableEntry V))
  pub size : ℕ
  pub size_mask : ℕ
  pub used : ℕ
  pub loading : Bool

module _ {V : Type 0} where
  -- `while (head != nullptr)`
  unfoldable pub find_entry : List (TableEntry V) → ℕ → Option (TableEntry V)
  find_entry [] key = none
  find_entry (head ∷ next) key = if head.key == key then some head else find_entry next key

  -- `new tableEntryT *[size]`, a pointer of 8 bytes to a place: an array of more bytes than a
  -- `ptrdiff_t` can count is an exception. Memory is not taken to run out before.
  unfoldable pub allocate : ℕ → Run (List (List (TableEntry V)))
  allocate size = if ltb size (2 ^ 60) then ok (replicate size []) else fault exception

  -- The constructor.
  unfoldable pub new : ℕ → Run (Table V)
  new n = do
    size ← next_power n
    buckets ← allocate size
    ok (record { buckets = buckets; size = size; size_mask = size - 1; used = 0; loading = false })

  -- `_freeEntryList`, and the loop over the buckets.
  unfoldable pub free_entry_list : List (TableEntry V) → List (TableEntry V)
  free_entry_list head = []

  unfoldable pub reset : Table V → Table V
  unfolding free_entry_list
  reset t =
      if ltb 0 t.used
      then record t { buckets = map free_entry_list t.buckets; used = 0; loading = false }
      else t

module _ {V : Type 0} (hash : ℕ → ℕ) where
  unfoldable pub find : Table V → ℕ → Run (Option (TableEntry V))
  unfolding at find_entry
  find t key =
      if t.loading || (t.used == 0)
      then ok none
      else (do head ← at t.buckets (bit_and (hash key) t.size_mask); ok (find_entry head key))

  -- The chain of one bucket is moved, node by node.
  unfoldable pub move_entries :
      ℕ → List (TableEntry V) → List (List (TableEntry V)) → Run (List (List (TableEntry V)))
  unfolding at put
  move_entries mask [] buckets = ok buckets
  move_entries mask (head ∷ next) buckets = do
    let h = bit_and (hash head.key) mask
    first ← at buckets h
    buckets' ← put buckets h (head ∷ first)
    move_entries mask next buckets'

  unfoldable pub move_buckets :
      ℕ → List (List (TableEntry V)) → List (List (TableEntry V)) → Run (List (List (TableEntry V)))
  unfolding move_entries
  move_buckets mask [] buckets = ok buckets
  move_buckets mask (head ∷ heads) buckets = do
    buckets' ← move_entries mask head buckets
    move_buckets mask heads buckets'

  -- The array is taken to be allocated: it has 16 places, or fewer than four for each entry, and every
  -- entry is a node in memory.
  unfoldable pub rehash : Table V → ℕ → Run (Table V × Bool)
  unfolding move_buckets
  rehash t n = do
    size ← next_power n
    if size == t.size then ok (t, false) else (do
      buckets ← move_buckets (size - 1) t.buckets (replicate size [])
      ok (record t { buckets = buckets; size = size; size_mask = size - 1 }, true))

  unfoldable pub expand_if_needed : Table V → Run (Table V)
  unfolding rehash mul64
  expand_if_needed t =
      if leb t.size t.used then (do r ← rehash t (mul64 t.used 2); ok r.0) else ok t

  unfoldable pub shrink_if_needed : Table V → Run (Table V)
  unfolding rehash mul64
  shrink_if_needed t =
      if ltb (mul64 t.used 2) t.size then (do r ← rehash t (mul64 t.used 2); ok r.0) else ok t

  unfoldable pub begin_loading : Table V → Table V
  unfolding reset
  begin_loading t = record (reset t) { loading = true }

  unfoldable pub end_loading : Table V → Run (Table V)
  unfolding shrink_if_needed
  end_loading t = do t' ← shrink_if_needed t; ok (record t' { loading = false })

  -- From the search of the bucket on.
  unfoldable pub insert_at :
      Table V → ℕ → V → ℕ → List (TableEntry V) → Run (Table V × Option (TableEntry V))
  unfolding find_entry put add64
  insert_at t key val h head = elim (find_entry head key) [
    | some old ↦ ok (t, none)
    | none ↦ do
      let entry : TableEntry V = record { key = key; val = val }
      buckets ← put t.buckets h (entry ∷ head)
      ok (record t { buckets = buckets; used = add64 t.used 1 }, some entry)
  ]

  unfoldable pub insert : Table V → ℕ → V → Run (Table V × Option (TableEntry V))
  unfolding expand_if_needed at insert_at
  insert t key val = elim t.loading [
    | false ↦ ok (t, none)
    | true ↦ do
      t' ← expand_if_needed t
      let h = bit_and (hash key) t'.size_mask
      head ← at t'.buckets h
      insert_at t' key val h head
  ]
