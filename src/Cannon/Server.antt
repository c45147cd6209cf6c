-- ===== src/Cannon/Server.antt =====
-- cannon/src/cannon/cannon_server.cpp: the handler of a query. Its types are those of
-- cannon/interface/cannon.thrift.
pub mod Answers
use cpp_project.Prelude.{
  ℕ, zero, suc, ◌+◌, List, [], ◌∷◌, ◌++◌, Option, none, some, length, drop, replicate, ltb, true,
  false,
}
use cpp_project.Run.{Run, ok, fault, diverges, ◌>>=◌}
use cpp_project.Memory.{read}
use cpp_project.Cannon.HashMap.{HashMap}
use cpp_project.Cannon.Storage.{Storage, seek}

pub data ItemStatus : Type 0 where
  found not_found error : ItemStatus

pub data Status : Type 0 where
  all_ok partial_ok error : Status

pub record CannonRequest : Type 0 where
  pub keys : List ℕ

pub record CannonResponse : Type 0 where
  pub status : Status
  pub value_statuses : List ItemStatus
  pub values : List ℕ

-- The body of the loop, once the key is looked up.
unfoldable pub answer : Storage → CannonResponse → Option ℕ → Run CannonResponse
unfolding read
answer s res (some value) = do
  bytes ← read s.store.table value s.store.value_size
  ok (record res {
    value_statuses = res.value_statuses ++ ItemStatus.found ∷ [];
    values = res.values ++ bytes;
  })
answer s res none = ok (record res {
  status = Status.partial_ok;
  value_statuses = res.value_statuses ++ ItemStatus.not_found ∷ [];
  values = res.values ++ replicate s.store.value_size 0;
})

-- The loop; `fuel` bounds its rounds.
unfoldable pub get_loop : ℕ → Storage → CannonRequest → ℕ → CannonResponse → Run CannonResponse
unfolding seek answer
get_loop zero s req pos res = fault diverges
get_loop (suc fuel) s req pos res = elim (ltb pos (length req.keys)) [
  | true ↦ do
    value ← seek s (drop pos req.keys)
    res' ← answer s res value
    get_loop fuel s req (pos + s.store.key_size) res'
  | false ↦ ok res
]

-- A key takes at least a byte, so there are at most as many rounds as bytes.
unfoldable pub get : Storage → CannonResponse → CannonRequest → Run CannonResponse
unfolding get_loop
get s res req = get_loop (length req.keys + 1) s req 0 (record res { status = Status.all_ok })
