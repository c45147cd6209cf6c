-- ===== src/CannonProxy/Store.antt =====
-- cannon_proxy/cannon/src/cannon/storage.h and storage.cpp: two stores, of which the parity of a
-- data version chooses one.
pub mod Laws
use cpp_project.Prelude.{ℕ, bit_and, Bool, true, false, Option, none, some, ◌==◌, if◌then◌else◌}
use cpp_project.CannonProxy.KeyMap.{KeyMap}

-- `Storage::Status`
pub data SeekStatus : Type 0 where
  found not_found error : SeekStatus

-- A data version is the bit pattern of an `int`.
unfoldable pub get_index : ℕ → ℕ
get_index data_version = bit_and data_version 1

module _ {V : Type 0} (maps : KeyMap V) where
  open maps use {Map, empty, find as map_find, insert as map_insert, size as map_size}

  -- `_stores[0]` and `_stores[1]`
  pub record Stores : Type 0 where
    pub store_0 : Map
    pub store_1 : Map

  unfoldable pub init : Stores
  init = record { store_0 = empty; store_1 = empty }

  unfoldable pub store_at : Stores → ℕ → Map
  store_at s i = if i == 0 then s.store_0 else s.store_1

  unfoldable pub with_store : Stores → ℕ → Map → Stores
  with_store s i m = if i == 0 then record s { store_0 = m } else record s { store_1 = m }

  unfoldable pub size : Stores → ℕ → ℕ
  unfolding get_index store_at
  size s data_version = map_size (store_at s (get_index data_version))

  -- The status, and what is written to `*value`.
  unfoldable pub seek : Stores → ℕ → ℕ → SeekStatus × Option V
  unfolding get_index store_at
  seek s key data_version = elim (map_find (store_at s (get_index data_version)) key) [
    | none ↦ (SeekStatus.not_found, none)
    | some v ↦ (SeekStatus.found, some v)
  ]

  unfoldable pub insert : Stores → ℕ → V → ℕ → Stores × Bool
  unfolding get_index store_at with_store
  insert s key value data_version =
      let store_idx = get_index data_version in
      let it = map_insert (store_at s store_idx) key value in (with_store s store_idx it.0, it.1)

  unfoldable pub clear_data : Stores → ℕ → Stores
  unfolding get_index with_store
  clear_data s data_version = with_store s (get_index data_version) empty
