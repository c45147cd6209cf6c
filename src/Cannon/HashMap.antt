-- ===== src/Cannon/HashMap.antt =====
-- cannon/src/cannon/immutable_hash_map.h and .cpp: entries of `key_size + value_size` bytes in one
-- vector, sorted in place by the hash of their keys, and an index of where each hash begins.
pub mod Power
pub mod Invariant
pub mod Counting
pub mod Placing
pub mod Load
pub mod Seek
use cpp_project.Prelude.{
  ℕ, zero, suc, ◌+◌, ◌-◌, ◌*◌, ◌/◌, bit_and, List, [], ◌∷◌, Option, none, some, length, ltb, leb,
  ◌==◌, ◌&&◌, true, false, if◌then◌else◌,
}
use cpp_project.Run.{Run, ok, fault, diverges, division_by_zero, uninitialised, ◌>>=◌, at, put}
use cpp_project.Words.{mul64}
use cpp_project.Memory.{read, write, bytes_equal}
use cpp_project.Cannon.BytesHash.{city_hash}

-- `_hash_mask` holds no value before the first load.
pub record HashMap : Type 0 where
  pub key_size : ℕ
  pub value_size : ℕ
  pub kv_size : ℕ
  pub kv_count : ℕ
  pub hash_mask : Option ℕ
  pub table : List ℕ
  pub indexes : List ℕ

-- The constructor.
unfoldable pub new : ℕ → ℕ → HashMap
new key_size value_size = record {
  key_size = key_size;
  value_size = value_size;
  kv_size = key_size + value_size;
  kv_count = 0;
  hash_mask = none;
  table = [];
  indexes = [];
}

-- `while (i < size) i *= 2`, in 64 bits.
unfoldable pub power_loop : ℕ → ℕ → ℕ → Run ℕ
unfolding mul64
power_loop zero i size = fault diverges
power_loop (suc fuel) i size =
    let rest = power_loop fuel (mul64 i 2) size in if ltb i size then rest else ok i

-- From 16, `i` takes 60 values up to 2 ^ 63, and is 0 from then on.
unfoldable pub next_power : ℕ → Run ℕ
unfolding power_loop
next_power size = power_loop 61 16 size

pub swap_kv : ℕ → List ℕ → ℕ → ℕ → Run (List ℕ)
unfolding read write
swap_kv kv_size table x_index y_index = if x_index == y_index then ok table else (do
  tmp ← read table (x_index * kv_size) kv_size
  y ← read table (y_index * kv_size) kv_size
  table' ← write table (x_index * kv_size) y
  write table' (y_index * kv_size) tmp)

-- The hash of the key at an offset, masked.
pub hash_at : ℕ → ℕ → List ℕ → ℕ → Run ℕ
unfolding read city_hash
hash_at key_size mask bytes off = do
  key ← read bytes off key_size
  h ← city_hash key
  ok (bit_and h mask)

-- `std::vector::resize`
pub resize : ℕ → List ℕ → ℕ → List ℕ
resize zero v x = []
resize (suc n) [] x = x ∷ resize n [] x
resize (suc n) (y ∷ v) x = y ∷ resize n v x

-- The first loop counts the entries of each hash.
pub count_loop : ℕ → HashMap → ℕ → ℕ → List ℕ → Run (List ℕ)
unfolding hash_at at put
count_loop zero m mask i indexes = fault diverges
count_loop (suc fuel) m mask i indexes = elim (ltb i (length m.table)) [
  | true ↦ do
    hash ← hash_at m.key_size mask m.table i
    n ← at indexes hash
    indexes' ← put indexes hash (n + 1)
    count_loop fuel m mask (i + m.kv_size) indexes'
  | false ↦ ok indexes
]

-- The second loop turns counts into where each hash begins.
unfoldable pub begins_loop : ℕ → List ℕ → List ℕ
begins_loop current_index [] = []
begins_loop current_index (index ∷ rest) = current_index ∷ begins_loop (current_index + index) rest

-- The third loop moves the entries to their places.
pub place_loop : ℕ → HashMap → ℕ → List ℕ → List ℕ → List ℕ → ℕ → Run (List ℕ)
unfolding hash_at swap_kv at put
place_loop zero m mask begins ends table i = fault diverges
place_loop (suc fuel) m mask begins ends table i = elim (ltb i m.kv_count) [
  | true ↦ do
    hash ← hash_at m.key_size mask table (i * m.kv_size)
    begin_index ← at begins hash
    end_index ← at ends hash
    elim (leb begin_index i && ltb i end_index) [
      | true ↦ place_loop fuel m mask begins ends table (i + 1)
      | false ↦ do
        table' ← swap_kv m.kv_size table i end_index
        ends' ← put ends hash (end_index + 1)
        place_loop fuel m mask begins ends' table' i
    ]
  | false ↦ ok table
]

pub divide : ℕ → ℕ → Run ℕ
divide a zero = fault division_by_zero
divide a (suc b) = ok (a / suc b)

-- The first loop makes a round for each entry, and there are at most as many as bytes. The third
-- makes at most two for each entry.
pub construct_immutable_hash_map : HashMap → Run HashMap
unfolding divide next_power resize count_loop begins_loop place_loop
construct_immutable_hash_map m = do
  kv_count ← divide (length m.table) m.kv_size
  hash_size ← next_power kv_count
  let mask = hash_size - 1
  counts ← count_loop (length m.table + 1) m mask 0 (resize (hash_size + 1) m.indexes 0)
  let begins = begins_loop 0 counts
  let m' = record m { kv_count = kv_count; hash_mask = some mask; indexes = begins }
  table ← place_loop (2 * kv_count + 1) m' mask begins begins m.table 0
  ok (record m' { table = table })

unfoldable pub load_kvs : HashMap → List ℕ → Run HashMap
unfolding construct_immutable_hash_map
load_kvs m kvs = construct_immutable_hash_map (record m { table = kvs })

-- `while (begin_index < end_index)`, with the count of rounds left.
pub seek_loop : ℕ → HashMap → List ℕ → ℕ → Run (Option ℕ)
unfolding read bytes_equal
seek_loop zero m key begin_index = ok none
seek_loop (suc rounds) m key begin_index = do
  entry_key ← read m.table (begin_index * m.kv_size) m.key_size
  elim (bytes_equal entry_key key) [
    | true ↦ ok (some (begin_index * m.kv_size + m.key_size))
    | false ↦ seek_loop rounds m key (begin_index + 1)
  ]

pub mask_of : HashMap → Run ℕ
mask_of m = elim m.hash_mask [ none ↦ fault uninitialised | some mask ↦ ok mask ]

-- The pointer to the value is its offset in the table. `key` holds the bytes that are at the
-- argument.
unfoldable pub seek : HashMap → List ℕ → Run (Option ℕ)
unfolding mask_of hash_at seek_loop at
seek m key = do
  mask ← mask_of m
  hash ← hash_at m.key_size mask key 0
  begin_index ← at m.indexes hash
  end_index ← at m.indexes (hash + 1)
  key_bytes ← read key 0 m.key_size
  seek_loop (end_index - begin_index) m key_bytes begin_index
