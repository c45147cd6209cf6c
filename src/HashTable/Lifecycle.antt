-- ===== src/HashTable/Lifecycle.antt =====
-- The use that hash_table/immutable_hash_table.h describes: begin to load, insert, end, and find.
use cpp_project.Prelude.{
  ℕ, ◌+◌, ◌^◌, ◌<◌, ◌≡◌, ◌∙◌, refl, sym, ap, Bool, true, false, List, [], ◌∷◌, map, replicate,
  length, Option, none, some, Bool-cases, inl, inr, ltb, ◌==◌, if◌then◌else◌, arith,
}
use mathlib.Core.Path.{subst}
use cpp_project.Run.{Run, ok, ◌>>=◌}
use cpp_project.HashTable.{
  TableEntry, Table, find_entry, free_entry_list, reset, find, begin_loading, end_loading, insert,
}
use cpp_project.HashTable.Chains.{first_or, first_or-none}
use cpp_project.HashTable.Invariant.{IsTable, entry_for, empty-IsTable, shrink_lem}
use cpp_project.HashTable.Map.{entry_for-empty, find-entry_for, insert-entry_for}

map-free :
    {V : Type 0} (buckets : List (List (TableEntry V)))
    → map free_entry_list buckets ≡ replicate (length buckets) []
unfolding free_entry_list
map-free [] = refl
map-free (b ∷ bs) = ap (◌∷◌ []) (map-free bs)

module _ {V : Type 0} (hash : ℕ → ℕ) where
  with_loading :
      (t : Table V) (loading : Bool)
      → IsTable hash t
      → IsTable hash (record t { loading = loading })
  with_loading t loading is = record {
    many = is.many;
    masked = is.masked;
    counted = is.counted;
    placed = is.placed;
    once = is.once;
    room = is.room;
  }

module _ {V : Type 0} (hash : ℕ → ℕ) where
  -- Whatever a table held, it holds nothing once a load begins.
  pub begin_loading-IsTable :
      (t : Table V)
      → IsTable hash t
      → IsTable hash (begin_loading hash t)
        × ((begin_loading hash t).loading ≡ true)
        × ((begin_loading hash t).used ≡ 0)
  unfolding begin_loading reset
  begin_loading-IsTable t is = elim (Bool-cases (ltb 0 t.used)) [
    | inl some_there ↦
        let cleared =
          subst
            (λ b. IsTable hash (record {
              buckets = b;
              size = t.size;
              size_mask = t.size_mask;
              used = 0;
              loading = true;
            }))
            (sym (map-free t.buckets ∙ ap (λ n. replicate n []) is.many))
            (empty-IsTable hash t.size t.size_mask true is.masked) in
        (rw some_there cleared, refl, rw some_there refl)
    | inr empty ↦ (rw empty (with_loading hash t true is), refl, rw empty (ground arith))
  ]

  insert_entries : List (TableEntry V) → Table V → Run (Table V)
  unfolding insert
  insert_entries [] t = ok t
  insert_entries (e ∷ es) t = do r ← insert hash t e.key e.val; insert_entries es r.0

  -- The whole use.
  unfoldable pub load_table : List (TableEntry V) → Table V → Run (Table V)
  unfolding insert_entries begin_loading end_loading
  load_table es t = do t' ← insert_entries es (begin_loading hash t); end_loading hash t'

  step :
      (o : Option (TableEntry V)) (b : Bool) (e : TableEntry V) (r : Option (TableEntry V))
      → first_or (first_or o (if b then some e else none)) r ≡ first_or o (if b then some e else r)
  unfolding first_or
  step o b e r = ground arith

  insert_entries_lem :
      (es : List (TableEntry V)) (t : Table V)
      → IsTable hash t
      → t.loading ≡ true
      → t.used + length es < 2 ^ 62
      → (t' : Table V) × (insert_entries es t ≡ ok t')
        × IsTable hash t'
        × (t'.used < 2 ^ 62)
        × ((j : ℕ) → entry_for hash t' j ≡ first_or (entry_for hash t j) (find_entry es j))
  unfolding insert_entries find_entry
  insert_entries_lem [] t is open_now small =
      (t, refl, is, omega arith, λ j. sym (first_or-none (entry_for hash t j)))
  insert_entries_lem (e ∷ es) t is open_now small =
      let (u, o, run, is', open', used', given, lookup) =
        insert-entry_for hash t e.key e.val is open_now (omega arith) in
      let (t', run', is'', small', lookup') = insert_entries_lem es u is' open' (omega arith) in
      (
        t',
        rw (run, ◌>>=◌) run',
        is'',
        small',
        λ j.
            lookup' j
            ∙ (ap (λ o'. first_or o' (find_entry es j)) (lookup j)
                ∙ step (entry_for hash t j) (e.key == j) e (find_entry es j)),
      )

  -- From any table, to begin to load, insert fewer than 2 ^ 62 entries and end ends without a fault.
  -- The result is again a table, and a search finds the first entry that was inserted for the key, or
  -- nothing if there is none, whatever the table held before.
  pub load_table-find :
      (es : List (TableEntry V)) (t : Table V)
      → IsTable hash t
      → length es < 2 ^ 62
      → (t' : Table V) × (load_table es t ≡ ok t')
        × IsTable hash t'
        × ((key : ℕ) → find hash t' key ≡ ok (find_entry es key))
  unfolding load_table end_loading first_or
  load_table-find es t is small =
      let (begun, open_now, empty) = begin_loading-IsTable t is in
      let (u, run, is', small', lookup) =
        insert_entries_lem es (begin_loading hash t) begun open_now (omega (arith, empty)) in
      let (t', run', by) = shrink_lem hash u is' small' in
      (
        record t' { loading = false },
        rw (run, ◌>>=◌, run', ◌>>=◌) refl,
        with_loading hash t' false by.table,
        λ key.
            find-entry_for hash (record t' { loading = false }) key
              (with_loading hash t' false by.table) refl
            ∙ ap ok (
                by.same key
                ∙ (lookup key
                    ∙ ap (λ o. first_or o (find_entry es key))
                        (entry_for-empty hash (begin_loading hash t) key begun empty))),
      )
