-- ===== src/CannonProxy/StoreServer.antt =====
-- cannon_proxy/cannon/src/cannon/cannon_server.cpp: the handler of a store's queries, insertions
-- and clearings. Its types are those of cannon_proxy/cannon/interface/cannon.thrift.
pub mod Batches
use cpp_project.Prelude.{ℕ, List, [], ◌∷◌, ◌++◌, Bool, true, Option, none, some, ◌&&◌}
use cpp_project.CannonProxy.KeyMap.{KeyMap}
use cpp_project.CannonProxy.Store.{SeekStatus, Stores}
use cpp_project.CannonProxy.Store

pub data ItemStatus : Type 0 where
  found not_found error : ItemStatus

pub data Status : Type 0 where
  all_ok partial_ok error : Status

pub record ValueItem (V : Type 0) : Type 0 where
  pub status : ItemStatus
  pub value : V

pub record CannonKv (V : Type 0) : Type 0 where
  pub key : ℕ
  pub value : V

pub record CannonResponse (V : Type 0) : Type 0 where
  pub status : Status
  pub values : List (ValueItem V)

module _ {V : Type 0} (zero_value : V) where
  -- The item for one key; a `ValueItem` begins with the value 0.
  unfoldable pub item_of : SeekStatus × Option V → ValueItem V
  item_of (SeekStatus.found, some v) = record { status = ItemStatus.found; value = v }
  item_of (SeekStatus.found, none) = record { status = ItemStatus.found; value = zero_value }
  item_of (_, some v) = record { status = ItemStatus.not_found; value = v }
  item_of (_, none) = record { status = ItemStatus.not_found; value = zero_value }

module _ {V : Type 0} (maps : KeyMap V) (zero_value : V) where
  unfoldable pub get_items : Stores maps → List ℕ → ℕ → List (ValueItem V) → List (ValueItem V)
  unfolding Store.seek item_of
  get_items s [] data_version values = values
  get_items s (key ∷ keys) data_version values =
      get_items s keys data_version
        (values ++ item_of zero_value (Store.seek maps s key data_version) ∷ [])

  unfoldable pub get : Stores maps → CannonResponse V → List ℕ → ℕ → CannonResponse V
  unfolding get_items
  get s res keys data_version = record {
    status = Status.all_ok;
    values = get_items s keys data_version res.values;
  }

module _ {V : Type 0} (maps : KeyMap V) where
  unfoldable pub insert_all : Stores maps → List (CannonKv V) → ℕ → Bool → Stores maps × Bool
  unfolding Store.insert
  insert_all s [] data_version ret = (s, ret)
  insert_all s (kv ∷ kvs) data_version ret =
      let r = Store.insert maps s kv.key kv.value data_version in
      insert_all r.0 kvs data_version (r.1 && ret)

  unfoldable pub insert : Stores maps → List (CannonKv V) → ℕ → Stores maps × Bool
  unfolding insert_all
  insert s kvs data_version = insert_all s kvs data_version true

  unfoldable pub clear_data : Stores maps → ℕ → Stores maps × Bool
  unfolding Store.clear_data
  clear_data s data_version = (Store.clear_data maps s data_version, true)
