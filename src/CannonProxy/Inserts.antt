-- ===== src/CannonProxy/Inserts.antt =====
-- cannon_proxy/src/proxy_server.cpp: how the proxy inserts a batch of entries while it reloads.
pub mod Shares
pub mod Filling
pub mod Merged
use cpp_project.Prelude.{
  ℕ, ◌+◌, ◌-◌, ◌%◌, ◌^◌, ◌==◌, List, [], ◌∷◌, ◌++◌, replicate, length, true, Bool, ◌&&◌,
  if◌then◌else◌,
}
use cpp_project.Run.{Run, ok, fault, exception, overflow, ◌>>=◌, at, put}
use cpp_project.CannonProxy.KeyMap.{KeyMap}
use cpp_project.CannonProxy.Store.{Stores}
use cpp_project.CannonProxy.StoreServer.{CannonKv}
use cpp_project.CannonProxy.StoreServer
use cpp_project.CannonProxy.Service.{client_idx}

-- `_data_version + 1` on an `int`, of which the bit pattern is given.
unfoldable pub next_version : ℕ → Run ℕ
next_version data_version =
    if data_version == 2 ^ 31 - 1 then fault overflow else ok ((data_version + 1) % 2 ^ 32)

module _ {V : Type 0} (hash : ℕ → ℕ) (clients_num : ℕ) where
  unfoldable pub shard_kvs :
      List (CannonKv V) → List (List (CannonKv V)) → Run (List (List (CannonKv V)))
  unfolding client_idx at put
  shard_kvs [] shards = ok shards
  shard_kvs (kv ∷ kvs) shards = do
    i ← client_idx (hash kv.key) clients_num
    shard ← at shards i
    shards' ← put shards i (shard ++ kv ∷ [])
    shard_kvs kvs shards'

-- `delivered i` says whether thrift delivers the calls to the store `i`: otherwise it throws, and
-- nothing is said of the stores.
module _ {V : Type 0} (maps : KeyMap V) (delivered : ℕ → Bool) where
  -- The loops over the stores. They change different stores, so each call runs where its answer is
  -- taken.
  unfoldable pub insert_shards :
      ℕ → List (List (CannonKv V)) → ℕ → List (Stores maps) → Bool → Run (List (Stores maps) × Bool)
  unfolding at put StoreServer.insert
  insert_shards data_version [] i clients ret = ok (clients, ret)
  insert_shards data_version ([] ∷ shards) i clients ret =
      insert_shards data_version shards (i + 1) clients ret
  insert_shards data_version ((kv ∷ kvs) ∷ shards) i clients ret = do
    s ← at clients i
    let r = StoreServer.insert maps s (kv ∷ kvs) data_version
    clients' ← put clients i r.0
    if delivered i
        then insert_shards data_version shards (i + 1) clients' (ret && r.1)
        else fault exception

  unfoldable pub insert :
      (ℕ → ℕ) → List (Stores maps) → ℕ → List (CannonKv V) → Run (List (Stores maps) × Bool)
  unfolding next_version shard_kvs insert_shards
  insert hash clients data_version kvs = do
    next ← next_version data_version
    shards ← shard_kvs hash (length clients) kvs (replicate (length clients) [])
    insert_shards next shards 0 clients true
