-- ===== src/HashTable/Rehash.antt =====
-- Moving the nodes of hash_table/immutable_hash_table.h to new buckets.
use mathlib.Core.List.{flatten}
use cpp_project.Prelude.{
  ℕ, ◌+◌, ◌<◌, ◌≡◌, ◌∙◌, refl, sym, ap, bit_and, bit_and-le_right, Bool, true, false, List, [], ◌∷◌,
  ◌++◌, length, length-set, get_or, set, get_or-set, Option, some, count, count-append, to_nat,
  Bool-cases, inl, inr, ◌==◌, ==_iff, ==_comm, if◌then◌else◌, arith,
}
use cpp_project.Run.{ok, ◌>>=◌, at-get_or, put-set}
use cpp_project.HashTable.{TableEntry, find_entry, move_entries, move_buckets}
use cpp_project.HashTable.Chains.{has_key, last_entry, count-flatten-set}

module _ (hash : ℕ → ℕ) (mask : ℕ) where
  abbrev pub slot : ℕ → ℕ
  slot key = bit_and (hash key) mask

  same_slot : (j k : ℕ) → (j == k) ≡ true → slot j ≡ slot k
  same_slot j k e = ap slot ((==_iff j k).0 e)

  other_slot : (j k i : ℕ) → slot j ≡ i → (slot k == i) ≡ false → (j == k) ≡ false
  other_slot j k i at_i other = elim (Bool-cases (j == k)) [
    | inl e ↦ cc ((==_iff (slot k) i).1 (sym (same_slot j k e) ∙ at_i))
    | inr e ↦ e
  ]

module _ {V : Type 0} (hash : ℕ → ℕ) (mask : ℕ) where
  -- No key stands in a bucket that is not its own.
  unfoldable pub IsPlaced : List (List (TableEntry V)) → Type 0
  IsPlaced buckets =
      (i key : ℕ)
      → (slot hash mask key == i) ≡ false
      → count (has_key key) (get_or buckets i []) ≡ 0

  abbrev pub held : List (List (TableEntry V)) → ℕ → Option (TableEntry V)
  held buckets key = find_entry (get_or buckets (slot hash mask key) []) key

  abbrev pub pushed : List (List (TableEntry V)) → TableEntry V → List (List (TableEntry V))
  pushed buckets e =
      set buckets (slot hash mask e.key) (e ∷ get_or buckets (slot hash mask e.key) [])

  pub pushed-IsPlaced :
      (buckets : List (List (TableEntry V))) (e : TableEntry V)
      → slot hash mask e.key < length buckets
      → IsPlaced buckets
      → IsPlaced (pushed buckets e)
  unfolding IsPlaced count
  pushed-IsPlaced buckets e lt placed i key other =
      rw
        (get_or-set buckets (slot hash mask e.key) i (e ∷ get_or buckets (slot hash mask e.key) [])
          [] lt)
        (elim (Bool-cases (slot hash mask e.key == i)) [
          | inl here ↦
              let at_i = (==_iff (slot hash mask e.key) i).0 here in
              rw (here, at_i, other_slot hash mask e.key key i at_i other)
                (omega (arith, placed i key other))
          | inr there ↦ rw there (placed i key other)
        ])

  pub held-pushed :
      (buckets : List (List (TableEntry V))) (e : TableEntry V) (key : ℕ)
      → slot hash mask e.key < length buckets
      → held (pushed buckets e) key ≡ (if e.key == key then some e else held buckets key)
  unfolding find_entry
  held-pushed buckets e key lt =
      rw
        (get_or-set buckets (slot hash mask e.key) (slot hash mask key)
          (e ∷ get_or buckets (slot hash mask e.key) []) [] lt)
        (elim (Bool-cases (slot hash mask e.key == slot hash mask key)) [
          | inl here ↦ rw here (
              ap (λ s. if e.key == key then some e else find_entry (get_or buckets s []) key)
                ((==_iff (slot hash mask e.key) (slot hash mask key)).0 here))
          | inr there ↦
              rw
                (
                  there,
                  other_slot hash mask e.key key (slot hash mask e.key) refl
                      (==_comm (slot hash mask key) (slot hash mask e.key) ∙ there),
                )
                refl
        ])

module _ {V : Type 0} (hash : ℕ → ℕ) (mask : ℕ) where
  -- What a move of some entries has done.
  pub record IsMoved (es : List (TableEntry V)) (buckets buckets' : List (List (TableEntry V)))
      : Type 0 where
    pub long : length buckets' ≡ length buckets
    pub placed : IsPlaced hash mask buckets → IsPlaced hash mask buckets'
    pub found :
        (key : ℕ) → held hash mask buckets' key ≡ last_entry es key (held hash mask buckets key)
    pub counted :
        (q : TableEntry V → Bool)
        → count q (flatten buckets') ≡ count q es + count q (flatten buckets)

  pub count-pushed :
      (q : TableEntry V → Bool) (buckets : List (List (TableEntry V))) (e : TableEntry V)
      → slot hash mask e.key < length buckets
      → count q (flatten (pushed hash mask buckets e)) ≡ to_nat (q e) + count q (flatten buckets)
  unfolding count
  count-pushed q buckets e lt = omega (
    arith,
    count-flatten-set q buckets (slot hash mask e.key)
        (e ∷ get_or buckets (slot hash mask e.key) []) lt,
  )

  slot-lt :
      (buckets : List (List (TableEntry V))) (key : ℕ)
      → mask < length buckets
      → slot hash mask key < length buckets
  slot-lt buckets key lt = omega (arith, bit_and-le_right (hash key) mask)

  pub move_entries_lem :
      (es : List (TableEntry V)) (buckets : List (List (TableEntry V)))
      → mask < length buckets
      → (buckets' : List (List (TableEntry V))) × (move_entries hash mask es buckets ≡ ok buckets')
        × IsMoved es buckets buckets'
  unfolding move_entries last_entry count
  move_entries_lem [] buckets lt = (
    buckets,
    refl,
    record {
      long = refl;
      placed = λ placed. placed;
      found = λ key. refl;
      counted = λ q. omega arith;
    },
  )
  move_entries_lem (e ∷ es) buckets lt =
      let e_lt = slot-lt buckets e.key lt in
      let long =
        length-set buckets (slot hash mask e.key) (e ∷ get_or buckets (slot hash mask e.key) []) in
      let (buckets', run, is) =
        move_entries_lem es (pushed hash mask buckets e) (omega (arith, long)) in
      (
        buckets',
        rw
            (
              at-get_or buckets (slot hash mask e.key) [] e_lt,
              ◌>>=◌,
              put-set buckets (slot hash mask e.key) (e ∷ get_or buckets (slot hash mask e.key) [])
                  e_lt,
              ◌>>=◌,
            )
            run,
        record {
          long = is.long ∙ long;
          placed = λ placed. is.placed (pushed-IsPlaced hash mask buckets e e_lt placed);
          found = λ key.
              is.found key ∙ ap (last_entry es key) (held-pushed hash mask buckets e key e_lt);
          counted = λ q. omega (arith, is.counted q, count-pushed q buckets e e_lt);
        },
      )

  last_entry-append :
      (xs ys : List (TableEntry V)) (key : ℕ) (o : Option (TableEntry V))
      → last_entry (xs ++ ys) key o ≡ last_entry ys key (last_entry xs key o)
  unfolding last_entry
  last_entry-append [] ys key o = refl
  last_entry-append (x ∷ xs) ys key o =
      last_entry-append xs ys key (if x.key == key then some x else o)

  pub move_buckets_lem :
      (heads buckets : List (List (TableEntry V)))
      → mask < length buckets
      → (buckets' : List (List (TableEntry V))) × (move_buckets hash mask heads buckets
          ≡ ok buckets')
        × IsMoved (flatten heads) buckets buckets'
  unfolding move_buckets flatten last_entry count
  move_buckets_lem [] buckets lt = (
    buckets,
    refl,
    record {
      long = refl;
      placed = λ placed. placed;
      found = λ key. refl;
      counted = λ q. omega arith;
    },
  )
  move_buckets_lem (es ∷ heads) buckets lt =
      let (middle, run, is) = move_entries_lem es buckets lt in
      let (buckets', run', is') = move_buckets_lem heads middle (omega (arith, is.long)) in
      (
        buckets',
        rw (run, ◌>>=◌) run',
        record {
          long = is'.long ∙ is.long;
          placed = λ placed. is'.placed (is.placed placed);
          found = λ key.
              is'.found key
              ∙ (ap (last_entry (flatten heads) key) (is.found key)
                  ∙ sym (last_entry-append es (flatten heads) key (held hash mask buckets key)));
          counted =
              λ q. omega (arith, is.counted q, is'.counted q, count-append q es (flatten heads));
        },
      )
