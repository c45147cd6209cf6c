-- ===== src/Cannon/Storage.antt =====
-- cannon/src/cannon/storage.h and storage.cpp: loading the files of a directory into the table.
-- The file system is a parameter, and does not change during a call.
pub mod Load
use cpp_project.Prelude.{
  ℕ, ◌+◌, ◌-◌, ◌^◌, List, [], ◌∷◌, ◌++◌, Bool, true, false, Option, none, some, length, take, ltb,
  leb, if◌then◌else◌,
}
use cpp_project.Run.{Run, ok, ◌>>=◌}
use cpp_project.Words.{add64, size_mod}
use cpp_project.Cannon.HashMap
use cpp_project.Cannon.HashMap.{HashMap}

-- What the program asks of `boost::filesystem` and of `std::ifstream`. `none` is a
-- `filesystem_error` in the first three, and a file that cannot be opened in the last.
pub record FileSystem : Type 1 where
  pub FilePath : Type 0
  pub exists : FilePath → Option Bool
  pub is_directory : FilePath → Option Bool
  pub directory_entries : FilePath → Option (List FilePath)
  pub contents : FilePath → Option (List ℕ)

pub record Storage : Type 0 where
  pub store : HashMap

-- The constructor, from the sizes of a schema.
unfoldable pub new : ℕ → ℕ → Storage
unfolding HashMap.new
new key_size value_size = record { store = HashMap.new key_size value_size }

unfoldable pub size : Storage → ℕ
size s = s.store.kv_count

-- How `load` ends: it returns a Boolean, or lets an exception pass.
pub data Outcome : Type 0 where
  returned : Bool → Outcome
  length_error : Outcome

-- `std::vector<byte>::max_size()`
abbrev pub max_size : ℕ
max_size = 2 ^ 63 - 1

unfoldable pub seek : Storage → List ℕ → Run (Option ℕ)
unfolding HashMap.seek
seek s key = HashMap.seek s.store key

module _ (fs : FileSystem) where
  open fs use {FilePath, exists, is_directory, directory_entries, contents}

  -- `tellg` is -1 for a file that cannot be opened.
  unfoldable pub get_file_size : FilePath → ℕ
  get_file_size path = elim (contents path) [ none ↦ size_mod - 1 | some bytes ↦ length bytes ]

  -- The vector with the file's bytes behind its own, or `none` where the function returns false.
  unfoldable pub load_kv_file : FilePath → List ℕ → Option (List ℕ)
  unfolding get_file_size
  load_kv_file path kvs = elim (contents path) [
    | none ↦ none
    | some bytes ↦
        let file_size = get_file_size path in
        if leb file_size (length bytes) then some (kvs ++ take file_size bytes) else none
  ]

  unfoldable pub total_size : List FilePath → ℕ → ℕ
  unfolding add64 get_file_size
  total_size [] total = total
  total_size (path ∷ paths) total = total_size paths (add64 total (get_file_size path))

  unfoldable pub load_kv_files : List FilePath → List ℕ → Option (List ℕ)
  unfolding load_kv_file
  load_kv_files [] kvs = some kvs
  load_kv_files (path ∷ paths) kvs = elim (load_kv_file path kvs) [
    | none ↦ none
    | some kvs' ↦ load_kv_files paths kvs'
  ]

  -- From `kvs.reserve` on.
  unfoldable pub load_entries : Storage → List FilePath → Run (Storage × Outcome)
  unfolding total_size load_kv_files HashMap.load_kvs
  load_entries s paths =
      if ltb max_size (total_size paths 0)
      then ok (s, length_error)
      else (elim (load_kv_files paths []) [
        | none ↦ ok (s, returned false)
        | some kvs ↦ do
          store ← HashMap.load_kvs s.store kvs
          ok (record s { store = store }, returned true)
      ])

  unfoldable pub load : Storage → FilePath → Run (Storage × Outcome)
  unfolding load_entries
  load s kv_dir = elim (exists kv_dir) [
    | none ↦ ok (s, returned false)
    | some false ↦ ok (s, returned false)
    | some true ↦ elim (is_directory kv_dir) [
      | none ↦ ok (s, returned false)
      | some false ↦ ok (s, returned false)
      | some true ↦ elim (directory_entries kv_dir) [
        | none ↦ ok (s, returned false)
        | some paths ↦ load_entries s paths
      ]
    ]
  ]
