-- ===== src/Cannon/Storage/Load.antt =====
-- How a load ends, on each of its branches.
use mathlib.Core.List.{flatten, append_assoc, append-nil}
use cpp_project.Prelude.{
  ℕ, ◌+◌, ◌*◌, ◌%◌, ◌≤◌, ◌<◌, ◌≡◌, ◌≢◌, ◌⊎◌, inl, inr, ◌∙◌, List, [], ◌∷◌, ◌++◌, true, false, none,
  some, length, take-length, length-append, ltb, SameElements, arith, le→leb, le→ltb, Bool-cases,
  Option-cases,
}
use native.Mathlib.Nat.{le_refl}
use cpp_project.Run.{ok}
use cpp_project.Words.{size_mod}
use cpp_project.Memory.Records.{records}
use cpp_project.Cannon.HashMap.Invariant.{IsLoaded}
use cpp_project.Cannon.HashMap.Load.{load_kvs-IsLoaded}
use cpp_project.Cannon.Storage.{
  FileSystem, Storage, new, Outcome, returned, length_error, max_size, get_file_size, load_kv_file,
  total_size, load_kv_files, load_entries, load,
}

module _ (fs : FileSystem) where
  open fs use {FilePath, exists, is_directory, directory_entries, contents}

  -- The files can be opened, and hold these bytes.
  abbrev pub Hold : List FilePath → List (List ℕ) → Type 0
  Hold [] [] = Unit
  Hold (path ∷ paths) (bytes ∷ rest) = (contents path ≡ some bytes) × Hold paths rest
  Hold _ _ = ⊥

  get_file_size_lem :
      (path : FilePath) (bytes : List ℕ)
      → contents path ≡ some bytes
      → get_file_size fs path ≡ length bytes
  unfolding get_file_size
  get_file_size_lem path bytes h = rw (get_file_size, h)

  total_size-length :
      (paths : List FilePath) (files : List (List ℕ)) (total : ℕ)
      → Hold paths files
      → total + length (flatten files) < size_mod
      → total_size fs paths total ≡ total + length (flatten files)
  unfolding total_size flatten
  total_size-length [] [] total h small = omega arith
  total_size-length [] (f ∷ files) total h small = absurd h
  total_size-length (p ∷ paths) [] total h small = absurd h
  total_size-length (p ∷ paths) (f ∷ files) total h small =
      let joined = length-append f (flatten files) in
      let fits : (total + length f) % size_mod ≡ total + length f = omega arith in
      rw (total_size, get_file_size_lem p f h.0, fits)
        (total_size-length paths files (total + length f) h.1 (omega arith) ∙ omega arith)

  load_kv_files-flatten :
      (paths : List FilePath) (files : List (List ℕ)) (kvs : List ℕ)
      → Hold paths files
      → load_kv_files fs paths kvs ≡ some (kvs ++ flatten files)
  unfolding load_kv_files flatten
  load_kv_files-flatten [] [] kvs h = rw append-nil
  load_kv_files-flatten [] (f ∷ files) kvs h = absurd h
  load_kv_files-flatten (p ∷ paths) [] kvs h = absurd h
  load_kv_files-flatten (p ∷ paths) (f ∷ files) kvs h =
      rw
        (
          load_kv_files,
          load_kv_file,
          h.0,
          get_file_size_lem p f h.0,
          le→leb (length f) (length f) (le_refl (length f)),
          take-length f,
          ← append_assoc,
        )
        (load_kv_files-flatten paths files (kvs ++ f) h.1)

  pub load-IsLoaded :
      (key_size value_size n : ℕ) (kv_dir : FilePath) (paths : List FilePath)
      (files : List (List ℕ))
      → 0 < key_size + value_size
      → exists kv_dir ≡ some true
      → is_directory kv_dir ≡ some true
      → directory_entries kv_dir ≡ some paths
      → Hold paths files
      → length (flatten files) ≡ n * (key_size + value_size)
      → length (flatten files) ≤ max_size
      → (s : Storage) × (rs : List (List ℕ)) × (load fs (new key_size value_size) kv_dir
          ≡ ok (s, returned true))
        × IsLoaded s.store rs
        × SameElements rs (records (key_size + value_size) n (flatten files))
        × (s.store.key_size ≡ key_size)
        × (s.store.value_size ≡ value_size)
  unfolding load new
  load-IsLoaded key_size value_size n kv_dir paths files pos ex dir listed hold whole small =
      let (m, rs, run, loaded, same, ks, vs) =
        load_kvs-IsLoaded key_size value_size n (flatten files) pos whole
          (omega (arith, entries_le n (key_size + value_size) pos)) in
      let total = total_size-length paths files 0 hold (omega arith) in
      (
        record { store = m },
        rs,
        rw (
          load,
          ex,
          dir,
          listed,
          load_entries,
          le→ltb max_size (total_size fs paths 0) (omega (arith, total)),
          load_kv_files-flatten paths files [] hold,
          run,
        ),
        loaded,
        same,
        ks,
        vs,
      )
    where
      entries_le : (n w : ℕ) → 0 < w → n ≤ n * w
      entries_le n w pos = grind arith

  -- A load that does not return true leaves the storage as it was.
  pub load_failed :
      (s s' : Storage) (kv_dir : FilePath) (o : Outcome)
      → load fs s kv_dir ≡ ok (s', o)
      → o ≢ returned true
      → s' ≡ s
  unfolding load
  load_failed s s' kv_dir o run failed = ground arith

  -- No file beyond one that cannot be opened is loaded.
  unreadable :
      (before after : List FilePath) (path : FilePath) (kvs : List ℕ)
      → contents path ≡ none
      → load_kv_files fs (before ++ path ∷ after) kvs ≡ none
  unfolding load_kv_files
  unreadable [] after path kvs h = rw (load_kv_files, load_kv_file, h)
  unreadable (p ∷ before) after path kvs h = elim (Option-cases (load_kv_file fs p kvs)) [
    | inl e ↦ rw (load_kv_files, e)
    | inr (k, e) ↦ rw (load_kv_files, e) (unreadable before after path k h)
  ]

  -- One file that cannot be opened makes the load fail, and leaves the storage as it was: the call
  -- returns false, or an exception leaves it, where the announced sizes exceed what a vector holds.
  pub load_unreadable :
      (s : Storage) (kv_dir : FilePath) (before after : List FilePath) (path : FilePath)
      → exists kv_dir ≡ some true
      → is_directory kv_dir ≡ some true
      → directory_entries kv_dir ≡ some (before ++ path ∷ after)
      → contents path ≡ none
      → (load fs s kv_dir ≡ ok (s, returned false)) ⊎ (load fs s kv_dir ≡ ok (s, length_error))
  unfolding load
  load_unreadable s kv_dir before after path ex dir listed h =
      elim (Bool-cases (ltb max_size (total_size fs (before ++ path ∷ after) 0))) [
        | inl over ↦ inr (rw (load, ex, dir, listed, load_entries, over))
        | inr fits ↦
            inl (rw (load, ex, dir, listed, load_entries, fits, unreadable before after path [] h))
      ]
