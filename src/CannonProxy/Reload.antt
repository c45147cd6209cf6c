-- ===== src/CannonProxy/Reload.antt =====
-- cannon_proxy/src/proxy_server.cpp: how the proxy reloads its data from files. The five seconds
-- that it sleeps before it clears the old version are left out; `_insert` is CannonProxy/Inserts.
pub mod Ends
use cpp_project.Prelude.{
  ℕ, zero, suc, ◌+◌, ◌%◌, ◌^◌, Bool, true, false, ◌&&◌, List, [], ◌∷◌, Option, none, some,
  if◌then◌else◌,
}
use cpp_project.Run.{Run, ok, fault, exception, uninitialised, diverges, ◌>>=◌}
use cpp_project.CannonProxy.KeyMap.{KeyMap}
use cpp_project.CannonProxy.Store.{Stores}
use cpp_project.CannonProxy.StoreServer.{CannonKv}
use cpp_project.CannonProxy.StoreServer
use cpp_project.CannonProxy.FilesReader.{Line, Stream, Reader, get_lines}
use cpp_project.CannonProxy.Inserts

-- The stores that the clients reach, `_data_version` and `_is_loading`.
pub record Service {V : Type 0} (maps : KeyMap V) : Type 0 where
  pub clients : List (Stores maps)
  pub data_version : ℕ
  pub is_loading : Bool

-- `parse` is what `iss >> key >> value` reads, or none where it fails. `bad` does not tell that it
-- failed, and then a value is inserted that was not set.
module _ {V : Type 0} (parse : Line → Option (CannonKv V)) where
  unfoldable pub read_kvs : List Line → Run (List (CannonKv V))
  read_kvs [] = ok []
  read_kvs (line ∷ lines) = elim (parse line) [
    | none ↦ fault uninitialised
    | some kv ↦ do kvs ← read_kvs lines; ok (kv ∷ kvs)
  ]

-- `++_data_version` on an atomic `int`, which wraps.
unfoldable pub count_version : ℕ → ℕ
count_version data_version = (data_version + 1) % 2 ^ 32

module _ {V : Type 0} (maps : KeyMap V) (delivered : ℕ → Bool) where
  -- The loops over the clients: each clears the version, and the answers are taken together.
  unfoldable pub clear_clients : ℕ → List (Stores maps) → ℕ → Bool → Run (List (Stores maps) × Bool)
  unfolding StoreServer.clear_data
  clear_clients data_version [] i ret = ok ([], ret)
  clear_clients data_version (s ∷ clients) i ret =
      if delivered i
      then (do
        let r = StoreServer.clear_data maps s data_version
        rest ← clear_clients data_version clients (i + 1) (ret && r.1)
        ok (r.0 ∷ rest.0, rest.1))
      else fault exception

  module _ (hash : ℕ → ℕ) (parse : Line → Option (CannonKv V))
      (open_file : Line → Option Stream) where
    -- `if (!kvs.empty()) ret &= _insert(kvs)`
    unfoldable pub insert_block :
        List (Stores maps) → ℕ → List (CannonKv V) → Bool → Run (List (Stores maps) × Bool)
    unfolding Inserts.insert
    insert_block clients data_version [] ret = ok (clients, ret)
    insert_block clients data_version (kv ∷ kvs) ret = do
      r ← Inserts.insert maps delivered hash clients data_version (kv ∷ kvs)
      ok (r.0, ret && r.1)

    -- The loop over the blocks of 1000 lines.
    unfoldable pub reload_loop :
        ℕ → Reader → List (Stores maps) → ℕ → Bool → Run (List (Stores maps) × Bool)
    reload_loop zero reader clients data_version ret = fault diverges
    reload_loop (suc fuel) reader clients data_version ret = do
      block ← get_lines open_file 1000 reader
      elim block.1 [
        | [] ↦ ok (clients, ret)
        | ◌∷◌ line lines ↦ do
          kvs ← read_kvs parse (line ∷ lines)
          r ← insert_block clients data_version kvs ret
          reload_loop fuel block.0 r.0 data_version r.1
      ]

    -- What follows the loop.
    unfoldable pub finish_reload :
        Service maps → List (Stores maps) × Bool → Run (Service maps × Bool)
    unfolding clear_clients count_version
    finish_reload s (clients, false) =
        ok (record { clients = clients; data_version = s.data_version; is_loading = false }, false)
    finish_reload s (clients, true) = do
      r ← clear_clients s.data_version clients 0 true
      ok (
        record { clients = r.0; data_version = count_version s.data_version; is_loading = false },
        r.1,
      )

    unfoldable pub reload : ℕ → Service maps → List Line → Run (Service maps × Bool)
    unfolding reload_loop finish_reload
    reload fuel s paths = elim s.is_loading [
      | true ↦ ok (s, false)
      | false ↦ elim paths [
        | [] ↦ ok (record s { is_loading = true }, true)
        | ◌∷◌ path rest ↦ do
          r ←
              reload_loop fuel (record { files = path ∷ rest; ifs = none }) s.clients s.data_version
                true
          finish_reload s r
      ]
    ]
