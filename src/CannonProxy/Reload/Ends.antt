-- ===== src/CannonProxy/Reload/Ends.antt =====
-- That a reload of cannon_proxy/src/proxy_server.cpp ends, and how it leaves the proxy.
use cpp_project.Prelude.{
  length-map, ℕ, zero, suc, ◌+◌, ◌-◌, ◌%◌, ◌^◌, ◌<◌, ◌≡◌, ◌∙◌, ◌==◌, ==_iff, inl, inr, refl, sym,
  ap, Bool, true, false, ◌&&◌, Bool-cases, List, [], ◌∷◌, ◌++◌, map, length, length-append, Option,
  none, some, if◌then◌else◌, arith,
}
use mathlib.Core.Path.{subst}
use cpp_project.Run.{ok, ◌>>=◌}
use cpp_project.CannonProxy.KeyMap.{KeyMap}
use cpp_project.CannonProxy.Store.{Stores}
use cpp_project.CannonProxy.StoreServer.{CannonKv, clear_data}
use cpp_project.CannonProxy.Service.Written.{member}
use cpp_project.CannonProxy.FilesReader.{Line, Stream, Reader, get_lines}
use cpp_project.CannonProxy.FilesReader.Rounds.{pending, all_lines}
use cpp_project.CannonProxy.FilesReader.Blocks.{get_lines-pending}
use cpp_project.CannonProxy.Inserts.Merged.{insert-merged}
use cpp_project.CannonProxy.Reload.{
  Service, read_kvs, count_version, clear_clients, insert_block, reload_loop, finish_reload, reload,
}

module _ {V : Type 0} (maps : KeyMap V) (delivered : ℕ → Bool) (hash : ℕ → ℕ)
    (parse : Line → Option (CannonKv V)) (open_file : Line → Option Stream) where
  -- A reload without paths leaves the flag set, so that no later reload is done: each returns
  -- false, and leaves the proxy as it is.
  pub reload-stuck :
      (fuel : ℕ) (s : Service maps)
      → s.is_loading ≡ false
      → (s' : Service maps) × (reload maps delivered hash parse open_file fuel s [] ≡ ok (s', true))
        × ((fuel' : ℕ) (paths : List Line)
            → reload maps delivered hash parse open_file fuel' s' paths ≡ ok (s', false))
  unfolding reload
  reload-stuck fuel s idle = (
    record { clients = s.clients; data_version = s.data_version; is_loading = true },
    rw (reload, idle) refl,
    λ fuel' paths. refl,
  )

-- Each line is a key and a value, and no key's hash has the sign bit of an `int`.
module _ {V : Type 0} (hash : ℕ → ℕ) (parse : Line → Option (CannonKv V)) where
  abbrev pub AreEntries : List Line → Type 0
  AreEntries [] = Unit
  AreEntries (line ∷ lines) =
      ((kv : CannonKv V) × (parse line ≡ some kv) × (hash kv.key % 2 ^ 32 < 2 ^ 31))
      × AreEntries lines

  AreEntries-left : (xs ys : List Line) → AreEntries (xs ++ ys) → AreEntries xs
  AreEntries-left [] ys are = tt
  AreEntries-left (x ∷ xs) ys (first, are) = (first, AreEntries-left xs ys are)

  AreEntries-right : (xs ys : List Line) → AreEntries (xs ++ ys) → AreEntries ys
  AreEntries-right [] ys are = are
  AreEntries-right (x ∷ xs) ys (first, are) = AreEntries-right xs ys are

  abbrev AllPlain : List (CannonKv V) → Type 0
  AllPlain kvs = (k : ℕ) → member k (map (λ kv. kv.key) kvs) ≡ true → hash k % 2 ^ 32 < 2 ^ 31

  AllPlain-cons :
      (kv : CannonKv V) (kvs : List (CannonKv V))
      → hash kv.key % 2 ^ 32 < 2 ^ 31
      → AllPlain kvs
      → AllPlain (kv ∷ kvs)
  unfolding member
  AllPlain-cons kv kvs plain all k there = elim (Bool-cases (kv.key == k)) [
    | inl same ↦ subst (λ j. hash j % 2 ^ 32 < 2 ^ 31) ((==_iff kv.key k).0 same) plain
    | inr other ↦ all k (rw other at there)
  ]

  read_kvs-AllPlain :
      (lines : List Line)
      → AreEntries lines
      → (kvs : List (CannonKv V)) × (read_kvs parse lines ≡ ok kvs) × AllPlain kvs
  unfolding read_kvs member
  read_kvs-AllPlain [] are = ([], refl, λ k there. absurd cc)
  read_kvs-AllPlain (line ∷ lines) ((kv, read, plain), are) =
      let (kvs, run, all) = read_kvs-AllPlain lines are in
      (kv ∷ kvs, rw (read_kvs, read, run, ◌>>=◌) refl, AllPlain-cons kv kvs plain all)

module _ {V : Type 0} (maps : KeyMap V) (delivered : ℕ → Bool) (hash : ℕ → ℕ)
    (parse : Line → Option (CannonKv V)) (open_file : Line → Option Stream) where
  insert_block-ends :
      (clients : List (Stores maps)) (data_version : ℕ) (kvs : List (CannonKv V)) (ret : Bool)
      → 0 < length clients
      → ((i : ℕ) → i < length clients → delivered i ≡ true)
      → (data_version == 2 ^ 31 - 1) ≡ false
      → AllPlain hash parse kvs
      → (clients' : List (Stores maps)) × (ret' : Bool) × (insert_block maps delivered hash parse
            open_file clients data_version kvs ret
          ≡ ok (clients', ret'))
        × (length clients' ≡ length clients)
  unfolding insert_block
  insert_block-ends clients data_version [] ret some_client reached countable all =
      (clients, ret, refl, refl)
  insert_block-ends clients data_version (kv ∷ kvs) ret some_client reached countable all =
      let m =
        insert-merged maps delivered hash clients data_version (kv ∷ kvs) some_client reached
          countable all in
      (m.0, ret && m.1, rw (m.2, ◌>>=◌) refl, m.3)

  abbrev LoopEnds : ℕ → Reader → List (Stores maps) → ℕ → Bool → Type 0
  LoopEnds fuel reader clients data_version ret =
      (clients' : List (Stores maps)) × (ret' : Bool) × (reload_loop maps delivered hash parse
          open_file fuel reader clients data_version ret
        ≡ ok (clients', ret'))
      × (length clients' ≡ length clients)

  module _ (data_version : ℕ) (countable : (data_version == 2 ^ 31 - 1) ≡ false) where
    abbrev AllEnd : ℕ → Type 0
    AllEnd fuel =
        (reader : Reader) (clients : List (Stores maps)) (ret : Bool)
        → length (pending open_file reader) < fuel
        → 0 < length clients
        → ((i : ℕ) → i < length clients → delivered i ≡ true)
        → AreEntries hash parse (pending open_file reader)
        → LoopEnds fuel reader clients data_version ret

    from_block :
        (fuel : ℕ) (reader : Reader) (clients : List (Stores maps)) (ret : Bool) (reader' : Reader)
        (lines : List Line)
        → AllEnd fuel
        → length (pending open_file reader) < suc fuel
        → 0 < length clients
        → ((i : ℕ) → i < length clients → delivered i ≡ true)
        → AreEntries hash parse (pending open_file reader)
        → get_lines open_file 1000 reader ≡ ok (reader', lines)
        → lines ++ pending open_file reader' ≡ pending open_file reader
        → LoopEnds (suc fuel) reader clients data_version ret
    unfolding reload_loop
    from_block fuel reader clients ret reader' [] ends enough some_client reached are run order =
        (clients, ret, rw (run, ◌>>=◌) refl, refl)
    from_block fuel reader clients ret reader' (line ∷ lines) ends enough some_client reached are
          run order =
        let split = subst (AreEntries hash parse) (sym order) are in
        let (kvs, read, all) =
          read_kvs-AllPlain hash parse (line ∷ lines)
            (AreEntries-left hash parse (line ∷ lines) (pending open_file reader') split) in
        let (clients', ret', inserted, many) =
          insert_block-ends clients data_version kvs ret some_client reached countable all in
        let (clients'', ret'', rest, many') =
          ends reader' clients' ret'
            (omega (arith, ap length order, length-append lines (pending open_file reader')))
            (omega (arith, many)) (λ i lt. reached i (omega (arith, many)))
            (AreEntries-right hash parse (line ∷ lines) (pending open_file reader') split) in
        (clients'', ret'', rw (run, ◌>>=◌, read, inserted) rest, many' ∙ many)

    reload_loop-ends : (fuel : ℕ) → AllEnd fuel
    reload_loop-ends zero reader clients ret enough some_client reached are = absurd (omega arith)
    reload_loop-ends (suc fuel) reader clients ret enough some_client reached are =
        let (reader', lines, run, order, bounded, full) = get_lines-pending open_file 1000 reader in
        from_block fuel reader clients ret reader' lines (reload_loop-ends fuel) enough some_client
          reached are run order

  clear_clients-ends :
      (data_version : ℕ) (clients : List (Stores maps)) (i : ℕ) (n : ℕ)
      → i + length clients ≡ n
      → ((j : ℕ) → j < n → delivered j ≡ true)
      → clear_clients maps delivered data_version clients i true
        ≡ ok (map (λ s. (clear_data maps s data_version).0) clients, true)
  unfolding clear_clients clear_data
  clear_clients-ends data_version [] i n many reached = refl
  clear_clients-ends data_version (s ∷ clients) i n many reached =
      rw
        (
          reached i (omega arith),
          clear_clients-ends data_version clients (i + 1) n (omega arith) reached,
          ◌>>=◌,
        )
        refl

  -- How a reload leaves the proxy: free for the next, with as many stores, and under the next version
  -- just where it returns true.
  abbrev pub IsReloaded : Service maps → Service maps → Bool → Type 0
  IsReloaded s s' ret =
      (s'.is_loading ≡ false)
      × (length s'.clients ≡ length s.clients)
      × (s'.data_version ≡ (if ret then count_version s.data_version else s.data_version))

  finish_reload-IsReloaded :
      (s : Service maps) (clients : List (Stores maps)) (ret : Bool)
      → length clients ≡ length s.clients
      → ((i : ℕ) → i < length s.clients → delivered i ≡ true)
      → (s' : Service maps) × (ret' : Bool) × (finish_reload maps delivered hash parse open_file s
            (clients, ret)
          ≡ ok (s', ret'))
        × IsReloaded s s' ret'
  unfolding finish_reload
  finish_reload-IsReloaded s clients false many reached = (_, false, refl, (refl, many, refl))
  finish_reload-IsReloaded s clients true many reached = (
    _,
    true,
    rw
        (
          clear_clients-ends s.data_version clients 0 (length s.clients) (omega (arith, many))
              reached,
          ◌>>=◌,
        )
        refl,
    (refl, length-map (λ c. (clear_data maps c s.data_version).0) clients ∙ many, refl),
  )

  reload-idle :
      (fuel : ℕ) (clients : List (Stores maps)) (data_version : ℕ) (is_loading : Bool) (path : Line)
      (paths : List Line)
      → is_loading ≡ false
      → reload maps delivered hash parse open_file fuel
          (record { clients = clients; data_version = data_version; is_loading = is_loading })
          (path ∷ paths)
        ≡ (reload_loop maps delivered hash parse open_file fuel
              (record { files = path ∷ paths; ifs = none })
              clients
              data_version
              true
            >>= finish_reload maps delivered hash parse open_file (record {
              clients = clients;
              data_version = data_version;
              is_loading = is_loading;
            }))
  unfolding reload
  reload-idle fuel clients data_version false path paths idle = refl
  reload-idle fuel clients data_version true path paths idle = absurd cc

  -- When no reload is running, there is a store, every call is delivered, the version can be counted
  -- up, and every line is a key and a value, where no key's hash has the sign bit of an `int`, a
  -- reload of files ends without a fault when it is allowed more rounds than the files have lines. It
  -- leaves the proxy free for the next reload, with as many stores, and under the next version just
  -- where it returns true.
  pub reload-IsReloaded :
      (fuel : ℕ) (s : Service maps) (path : Line) (paths : List Line)
      → s.is_loading ≡ false
      → length (all_lines open_file (path ∷ paths)) < fuel
      → 0 < length s.clients
      → ((i : ℕ) → i < length s.clients → delivered i ≡ true)
      → (s.data_version == 2 ^ 31 - 1) ≡ false
      → AreEntries hash parse (all_lines open_file (path ∷ paths))
      → (s' : Service maps) × (ret : Bool) × (reload maps delivered hash parse open_file fuel s
            (path ∷ paths)
          ≡ ok (s', ret))
        × IsReloaded s s' ret
  reload-IsReloaded fuel s path paths idle enough some_client reached countable are =
      let (clients, ret, run, many) =
        reload_loop-ends s.data_version countable fuel (record { files = path ∷ paths; ifs = none })
          s.clients true enough some_client reached are in
      let (s', ret', finished, is) = finish_reload-IsReloaded s clients ret many reached in
      (
        s',
        ret',
        reload-idle fuel s.clients s.data_version s.is_loading path paths idle
            ∙ (ap (λ r. r >>= finish_reload maps delivered hash parse open_file s) run ∙ finished),
        is,
      )
