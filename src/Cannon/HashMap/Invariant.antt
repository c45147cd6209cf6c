-- ===== src/Cannon/HashMap/Invariant.antt =====
-- What a loaded table looks like, and the hash of a key as a number.
use mathlib.Core.List.{flatten}
use cpp_project.Prelude.{
  ℕ, ◌+◌, ◌*◌, ◌≤◌, ◌<◌, ◌≡◌, ap, bit_and, bit_and-le_right, List, some, length, take, take-length,
  get_elem?, get_or,
}
use cpp_project.Run.{ok}
use cpp_project.Memory.Records.{HaveWidth, read-flatten}
use cpp_project.Buckets.{start_of, IsIndexed}
use cpp_project.Cannon.BytesHash.{city_hash}
use cpp_project.Cannon.BytesHash.InBounds.{city_hash-IsOk}
use cpp_project.Cannon.HashMap.{HashMap, hash_at}

-- The value that the hash function returns.
pub digest : List ℕ → ℕ
digest key = (city_hash-IsOk key).0

pub city_hash-digest : (key : List ℕ) → city_hash key ≡ ok (digest key)
unfolding digest
city_hash-digest key = (city_hash-IsOk key).1

-- The bucket of an entry, or of a key.
pub slot : ℕ → ℕ → List ℕ → ℕ
slot key_size mask entry = bit_and (digest (take key_size entry)) mask

pub slot_lem :
    (key_size mask : ℕ) (key : List ℕ)
    → length key ≡ key_size
    → slot key_size mask key ≡ bit_and (digest key) mask
unfolding slot
slot_lem key_size mask key e = rw (← e, take-length key)

pub slot-le : (key_size mask : ℕ) (entry : List ℕ) → slot key_size mask entry ≤ mask
unfolding slot
slot-le key_size mask entry = bit_and-le_right (digest (take key_size entry)) mask

pub slot-eq_of_key :
    (key_size mask : ℕ) (a b : List ℕ)
    → take key_size a ≡ take key_size b
    → slot key_size mask a ≡ slot key_size mask b
unfolding slot
slot-eq_of_key key_size mask a b e = ap (λ k. bit_and (digest k) mask) e

pub hash_at-slot :
    (key_size mask w : ℕ) (rs : List (List ℕ)) (i : ℕ) (r : List ℕ)
    → HaveWidth w rs
    → get_elem? rs i ≡ some r
    → key_size ≤ w
    → hash_at key_size mask (flatten rs) (i * w) ≡ ok (slot key_size mask r)
unfolding hash_at slot
hash_at-slot key_size mask w rs i r widths at le =
    rw (read-flatten w rs i r key_size widths at le, city_hash-digest (take key_size r))

-- The table holds the entries `rs`, each in the run of its bucket, and the index tells where each
-- run begins and, in the next place, where it ends.
pub record IsLoaded (m : HashMap) (rs : List (List ℕ)) : Type 0 where
  pub mask : ℕ
  pub sizes : m.kv_size ≡ m.key_size + m.value_size
  pub masked : m.hash_mask ≡ some mask
  pub counted : m.kv_count ≡ length rs
  pub table : m.table ≡ flatten rs
  pub widths : HaveWidth m.kv_size rs
  pub index_size : length m.indexes ≡ mask + 2
  pub indexes : (h : ℕ) → h < mask + 2 → get_or m.indexes h 0 ≡ start_of (slot m.key_size mask) rs h
  pub indexed : IsIndexed (slot m.key_size mask) rs
