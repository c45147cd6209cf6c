-- ===== src/HashTable/Map.antt =====
-- What the operations of hash_table/immutable_hash_table.h do, as those of a finite map.
use mathlib.Core.List.{flatten}
use cpp_project.Prelude.{
  ℕ, ◌+◌, ◌^◌, ◌<◌, ◌≤◌, ◌≡◌, ◌∙◌, refl, sym, ap, bit_and-le_right, Bool, true, false, [], ◌∷◌,
  length, length-set, get_or, Option, none, some, count, count-true, count-le-length, to_nat,
  Bool-cases, Option-cases, inl, inr, ◌==◌, ==_iff, if◌then◌else◌, arith,
}
use cpp_project.Run.{ok, ◌>>=◌, at-get_or, put-set}
use cpp_project.Words.{add64}
use cpp_project.HashTable.{TableEntry, Table, find_entry, find, expand_if_needed, insert, insert_at}
use cpp_project.HashTable.Chains.{
  has_key, first_or, find_entry-none, find_entry-flatten, count_of_none,
}
use cpp_project.HashTable.Rehash.{
  slot, IsPlaced, pushed, pushed-IsPlaced, held-pushed, count-pushed,
}
use cpp_project.HashTable.Invariant.{IsTable, entry_for, expand_lem}

plus_one : (n : ℕ) → n < 2 ^ 62 → add64 n 1 ≡ n + 1
unfolding add64
plus_one n small = omega arith

module _ {V : Type 0} where
  -- What an insertion gives, from what is held for the key.
  unfoldable pub first_refusal : Option (TableEntry V) → TableEntry V → Option (TableEntry V)
  first_refusal none e = some e
  first_refusal (some old) e = none

  abbrev pub placed_entry : ℕ → V → TableEntry V
  placed_entry key val = record { key = key; val = val }

  added :
      (b : Bool) (o : Option (TableEntry V)) (e : TableEntry V)
      → (b ≡ true → o ≡ none)
      → (if b then some e else o) ≡ first_or o (if b then some e else none)
  unfolding first_or
  added true none e free = refl
  added true (some x) e free = cc (free refl)
  added false none e free = refl
  added false (some x) e free = refl

  kept :
      (b : Bool) (o : Option (TableEntry V)) (e old : TableEntry V)
      → (b ≡ true → o ≡ some old)
      → o ≡ first_or o (if b then some e else none)
  unfolding first_or
  kept true none e old taken = cc (taken refl)
  kept true (some x) e old taken = refl
  kept false none e old taken = refl
  kept false (some x) e old taken = refl

module _ {V : Type 0} (hash : ℕ → ℕ) where
  find_entry-all :
      (t : Table V) (key : ℕ)
      → IsTable hash t
      → find_entry (flatten t.buckets) key ≡ entry_for hash t key
  unfolding IsPlaced
  find_entry-all t key is =
      find_entry-flatten t.buckets (slot hash t.size_mask key) key
        (λ i other. is.placed i key other)

  pub entry_for-empty :
      (t : Table V) (key : ℕ) → IsTable hash t → t.used ≡ 0 → entry_for hash t key ≡ none
  entry_for-empty t key is empty =
      sym (find_entry-all t key is)
      ∙ find_entry-none (flatten t.buckets) key
          (omega (arith, is.counted, count-le-length (has_key key) (flatten t.buckets)))

  -- A search of a table that is not loading gives the entry that the table holds for the key.
  pub find-entry_for :
      (t : Table V) (key : ℕ)
      → IsTable hash t
      → t.loading ≡ false
      → find hash t key ≡ ok (entry_for hash t key)
  unfolding find
  find-entry_for t key is closed = elim (Bool-cases (t.used == 0)) [
    | inl empty ↦
        rw (closed, empty) (ap ok (sym (entry_for-empty t key is ((==_iff t.used 0).0 empty))))
    | inr some_there ↦
        rw
          (
            closed,
            some_there,
            at-get_or t.buckets (slot hash t.size_mask key) []
                (omega (arith, is.many, is.masked, bit_and-le_right (hash key) t.size_mask)),
            ◌>>=◌,
          )
          refl
  ]

  once_more :
      (t : Table V) (e : TableEntry V) (j : ℕ)
      → IsTable hash t
      → entry_for hash t e.key ≡ none
      → to_nat (e.key == j) + count (has_key j) (flatten t.buckets) ≤ 1
  once_more t e j is gone = elim (Bool-cases (e.key == j)) [
    | inl same ↦
        let absent = count_of_none (flatten t.buckets) e.key (find_entry-all t e.key is ∙ gone) in
        rw same (
          omega (
            arith,
            ap (λ k. count (has_key k) (flatten t.buckets)) ((==_iff e.key j).0 same),
            absent,
          ))
    | inr other ↦ rw other (omega (arith, is.once j))
  ]

  inserted-IsTable :
      (t : Table V) (e : TableEntry V)
      → IsTable hash t
      → t.used < t.size
      → slot hash t.size_mask e.key < length t.buckets
      → entry_for hash t e.key ≡ none
      → IsTable hash (record t { buckets = pushed hash t.size_mask t.buckets e; used = t.used + 1 })
  inserted-IsTable t e is free lt gone =
      let buckets = pushed hash t.size_mask t.buckets e in
      record {
        many =
            length-set t.buckets (slot hash t.size_mask e.key)
              (e ∷ get_or t.buckets (slot hash t.size_mask e.key) [])
            ∙ is.many;
        masked = is.masked;
        counted = omega (
          arith,
          is.counted,
          count-pushed hash t.size_mask (λ x. true) t.buckets e lt,
          count-true (flatten t.buckets),
          count-true (flatten buckets),
        );
        placed = pushed-IsPlaced hash t.size_mask t.buckets e lt is.placed;
        once = λ j. omega (
          arith,
          count-pushed hash t.size_mask (has_key j) t.buckets e lt,
          once_more t e j is gone,
        );
        room = omega arith;
      }

  insert_at-absent :
      (t : Table V) (key : ℕ) (val : V)
      → IsTable hash t
      → t.used < t.size
      → t.used < 2 ^ 62
      → entry_for hash t key ≡ none
      → (t' : Table V) × (insert_at hash t key val
            (slot hash t.size_mask key)
            (get_or t.buckets (slot hash t.size_mask key) [])
          ≡ ok (t', some (placed_entry key val)))
        × IsTable hash t'
        × ((j : ℕ)
            → entry_for hash t' j
              ≡ (if key == j then some (placed_entry key val) else entry_for hash t j))
        × (t'.used ≡ t.used + 1)
        × (t'.loading ≡ t.loading)
  unfolding insert_at
  insert_at-absent t key val is free small gone =
      let e : TableEntry V = record { key = key; val = val } in
      let lt : slot hash t.size_mask key < length t.buckets =
        omega (arith, is.many, is.masked, bit_and-le_right (hash key) t.size_mask) in
      (
        record t { buckets = pushed hash t.size_mask t.buckets e; used = t.used + 1 },
        rw
            (
              insert_at,
              gone,
              put-set t.buckets (slot hash t.size_mask key)
                  (e ∷ get_or t.buckets (slot hash t.size_mask key) []) lt,
              ◌>>=◌,
              plus_one t.used small,
            )
            refl,
        inserted-IsTable t e is free lt gone,
        λ j. held-pushed hash t.size_mask t.buckets e j lt,
        refl,
        refl,
      )

  at_key :
      (t : Table V) (key j : ℕ) (o : Option (TableEntry V))
      → entry_for hash t key ≡ o
      → (key == j) ≡ true
      → entry_for hash t j ≡ o
  at_key t key j o there e = sym (ap (entry_for hash t) ((==_iff key j).0 e)) ∙ there

  insert_open :
      (t u : Table V) (key : ℕ) (val : V)
      → t.loading ≡ true
      → expand_if_needed hash t ≡ ok u
      → slot hash u.size_mask key < length u.buckets
      → insert hash t key val
        ≡ insert_at hash u key val
            (slot hash u.size_mask key)
            (get_or u.buckets (slot hash u.size_mask key) [])
  unfolding insert
  insert_open t u key val open_now run lt =
      ground (arith, run, at-get_or u.buckets (slot hash u.size_mask key) [] lt)

  -- While a table of fewer than 2 ^ 62 entries is loading, an insertion ends without a fault and the
  -- result is again a table, still loading, with at most one entry more. It returns nothing if the
  -- table holds an entry for the key, and otherwise the new entry; every key then has what it had, or
  -- else the new entry if it is the key of that.
  pub insert-entry_for :
      (t : Table V) (key : ℕ) (val : V)
      → IsTable hash t
      → t.loading ≡ true
      → t.used < 2 ^ 62
      → (t' : Table V) × (o : Option (TableEntry V)) × (insert hash t key val ≡ ok (t', o))
        × IsTable hash t'
        × (t'.loading ≡ true)
        × (t'.used ≤ t.used + 1)
        × (o ≡ first_refusal (entry_for hash t key) (placed_entry key val))
        × ((j : ℕ)
            → entry_for hash t' j
              ≡ first_or
                  (entry_for hash t j)
                  (if key == j then some (placed_entry key val) else none))
  unfolding insert_at first_refusal
  insert-entry_for t key val is open_now small =
      let (u, run, by, free) = expand_lem hash t is small in
      let s = slot hash u.size_mask key in
      let lt : s < length u.buckets =
        omega (arith, by.table.many, by.table.masked, bit_and-le_right (hash key) u.size_mask) in
      elim (Option-cases (entry_for hash u key)) [
        | inl gone ↦
            let (v, run', is', lookup', used', loading') =
              insert_at-absent u key val by.table free (omega (arith, by.used)) gone in
            (
              v,
              some (placed_entry key val),
              insert_open t u key val open_now run lt ∙ run',
              is',
              loading' ∙ (by.loading ∙ open_now),
              omega (arith, used', by.used),
              rw (sym (by.same key) ∙ gone) refl,
              λ j.
                  lookup' j
                  ∙ (added (key == j) (entry_for hash u j) (placed_entry key val)
                        (at_key u key j none gone)
                      ∙ ap
                          (λ o. first_or o (if key == j then some (placed_entry key val) else none))
                          (by.same j)),
            )
        | inr (old, there) ↦ (
          u,
          none,
          insert_open t u key val open_now run lt ∙ rw (insert_at, there) refl,
          by.table,
          by.loading ∙ open_now,
          omega (arith, by.used),
          rw (sym (by.same key) ∙ there) refl,
          λ j.
              kept (key == j) (entry_for hash u j) (placed_entry key val) old
                (at_key u key j (some old) there)
              ∙ ap (λ o. first_or o (if key == j then some (placed_entry key val) else none))
                  (by.same j),
        )
      ]
