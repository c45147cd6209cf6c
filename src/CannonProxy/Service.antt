-- ===== src/CannonProxy/Service.antt =====
-- cannon_proxy/src/proxy_server.cpp: the handler of the proxy's queries, and
-- cannon_proxy/src/cannon_client_wrapper.cpp, through which it asks the stores.
pub mod Written
pub mod Merge
pub mod Shards
pub mod Expected
pub mod Gather
pub mod Answers
use cpp_project.Prelude.{
  ℕ, zero, suc, ◌+◌, ◌-◌, ◌%◌, ◌^◌, List, [], ◌∷◌, ◌++◌, replicate, length, ltb, ◌==◌, Bool,
  if◌then◌else◌,
}
use cpp_project.Run.{Run, ok, fault, out_of_bounds, division_by_zero, exception, ◌>>=◌, at, put}
use cpp_project.CannonProxy.KeyMap.{KeyMap}
use cpp_project.CannonProxy.Store.{Stores}
use cpp_project.CannonProxy.StoreServer.{ItemStatus, Status, ValueItem, CannonResponse}
use cpp_project.CannonProxy.StoreServer

-- `(int)hash % n` as an index. The cast keeps 32 bits, of which the highest is the sign, and the
-- remainder takes the sign of the dividend; a negative index is out of bounds.
unfoldable pub client_idx : ℕ → ℕ → Run ℕ
client_idx hash zero = fault division_by_zero
client_idx hash (suc n) =
    let low = hash % 2 ^ 32 in
    if ltb low (2 ^ 31)
    then ok (low % suc n)
    else (if (2 ^ 32 - low) % suc n == 0 then ok 0 else fault out_of_bounds)

-- `key_idx`, the latest insertion first. `operator[]` inserts 0 for a key that is not there.
unfoldable pub idx_of : List (ℕ × ℕ) → ℕ → ℕ
idx_of [] key = 0
idx_of (entry ∷ entries) key = if entry.0 == key then entry.1 else idx_of entries key

-- What the loop that shards the keys changes.
pub record Sharding : Type 0 where
  pub n : ℕ
  pub key_idx : List (ℕ × ℕ)
  pub sharding_keys : List (List ℕ)

module _ (hash : ℕ → ℕ) (clients_num : ℕ) where
  unfoldable pub shard_keys : List ℕ → Sharding → Run Sharding
  unfolding client_idx at put
  shard_keys [] s = ok s
  shard_keys (key ∷ keys) s = do
    i ← client_idx (hash key) clients_num
    shard ← at s.sharding_keys i
    shards ← put s.sharding_keys i (shard ++ key ∷ [])
    shard_keys keys
        (record { n = s.n + 1; key_idx = (key, s.n) ∷ s.key_idx; sharding_keys = shards })

unfoldable pub status_after : ItemStatus → Status → Status
status_after ItemStatus.error status = Status.error
status_after ItemStatus.not_found Status.all_ok = Status.partial_ok
status_after ItemStatus.not_found Status.partial_ok = Status.partial_ok
status_after ItemStatus.not_found Status.error = Status.error
status_after ItemStatus.found status = status

module _ {V : Type 0} where
  -- The loop over the keys of one store's answer.
  unfoldable pub merge_keys :
      List (ℕ × ℕ) → List (ValueItem V) → List ℕ → ℕ → CannonResponse V → Run (CannonResponse V)
  unfolding at put idx_of status_after
  merge_keys key_idx result [] j res = ok res
  merge_keys key_idx result (key ∷ keys) j res = do
    item ← at result j
    values ← put res.values (idx_of key_idx key) item
    merge_keys key_idx result keys (j + 1)
        (record { status = status_after item.status res.status; values = values })

-- `delivered i` says whether thrift delivers the calls to the store `i`: otherwise it throws.
module _ {V : Type 0} (maps : KeyMap V) (zero_value : V) (delivered : ℕ → Bool) where
  unfoldable pub query_keys : List (Stores maps) → ℕ → List ℕ → ℕ → Run (List (ValueItem V))
  unfolding at StoreServer.get
  query_keys clients i keys data_version = do
    s ← at clients i
    if delivered i
        then ok
            (StoreServer.get maps zero_value s (record { status = Status.all_ok; values = [] }) keys
              data_version).values
        else fault exception

  -- The loop over the stores. A query changes no store, so it runs where its answer is taken.
  unfoldable pub merge_shards :
      List (Stores maps)
      → ℕ
      → List (ℕ × ℕ)
      → List (List ℕ)
      → ℕ
      → CannonResponse V
      → Run (CannonResponse V)
  unfolding query_keys merge_keys
  merge_shards clients data_version key_idx [] i res = ok res
  merge_shards clients data_version key_idx ([] ∷ shards) i res =
      merge_shards clients data_version key_idx shards (i + 1) res
  merge_shards clients data_version key_idx ((key ∷ keys) ∷ shards) i res = do
    result ← query_keys clients i (key ∷ keys) data_version
    res' ← merge_keys key_idx result (key ∷ keys) 0 res
    merge_shards clients data_version key_idx shards (i + 1) res'

  -- The answer begins with no values.
  unfoldable pub get : (ℕ → ℕ) → List (Stores maps) → ℕ → List ℕ → Run (CannonResponse V)
  unfolding shard_keys merge_shards
  get hash clients data_version keys = do
    s ←
        shard_keys hash (length clients) keys
          (record { n = 0; key_idx = []; sharding_keys = replicate (length clients) [] })
    merge_shards clients data_version s.key_idx s.sharding_keys 0 (record {
      status = Status.all_ok;
      values = replicate s.n (record { status = ItemStatus.found; value = zero_value });
    })
