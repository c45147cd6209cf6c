-- ===== src/HashTable/Chains.antt =====
-- Chains of entries: what a search of them finds, and what the buckets of a table hold together.
use mathlib.Core.List.{flatten}
use cpp_project.Prelude.{
  ℕ, zero, suc, ◌+◌, ◌<◌, ◌≤◌, ◌≡◌, ◌∙◌, refl, ap, Bool, false, List, [], ◌∷◌, ◌++◌, length, get_or,
  set, Option, none, some, count, count-append, Bool-cases, inl, inr, ◌==◌, if◌then◌else◌, arith,
}
use cpp_project.HashTable.{TableEntry, find_entry}

module _ {V : Type 0} where
  abbrev pub has_key : ℕ → TableEntry V → Bool
  has_key key e = e.key == key

  -- The last entry of a chain that has a key, or else what is given.
  unfoldable pub last_entry :
      List (TableEntry V) → ℕ → Option (TableEntry V) → Option (TableEntry V)
  last_entry [] key o = o
  last_entry (e ∷ es) key o = last_entry es key (if e.key == key then some e else o)

  unfoldable pub first_or : Option (TableEntry V) → Option (TableEntry V) → Option (TableEntry V)
  first_or none o = o
  first_or (some e) o = some e

  pub find_entry-none :
      (es : List (TableEntry V)) (key : ℕ) → count (has_key key) es ≡ 0 → find_entry es key ≡ none
  unfolding find_entry count
  find_entry-none [] key none_there = refl
  find_entry-none (e ∷ es) key none_there = ground (arith, find_entry-none es key)

  pub count_of_none :
      (es : List (TableEntry V)) (key : ℕ) → find_entry es key ≡ none → count (has_key key) es ≡ 0
  unfolding find_entry count
  count_of_none [] key e = refl
  count_of_none (x ∷ es) key e = ground (arith, count_of_none es key)

  last_entry-none :
      (es : List (TableEntry V)) (key : ℕ) (o : Option (TableEntry V))
      → count (has_key key) es ≡ 0
      → last_entry es key o ≡ o
  unfolding last_entry count
  last_entry-none [] key o none_there = refl
  last_entry-none (e ∷ es) key o none_there = ground (arith, last_entry-none es key o)

  pub last_entry-first :
      (es : List (TableEntry V)) (key : ℕ) (o : Option (TableEntry V))
      → count (has_key key) es ≤ 1
      → last_entry es key o ≡ first_or (find_entry es key) o
  unfolding last_entry first_or find_entry count
  last_entry-first [] key o once = refl
  last_entry-first (e ∷ es) key o once = elim (Bool-cases (e.key == key)) [
    | inl same ↦ rw same (last_entry-none es key (some e) (ground arith))
    | inr other ↦ rw other (last_entry-first es key o (ground arith))
  ]

  find_entry-append :
      (xs ys : List (TableEntry V)) (key : ℕ)
      → find_entry (xs ++ ys) key ≡ first_or (find_entry xs key) (find_entry ys key)
  unfolding find_entry first_or
  find_entry-append [] ys key = refl
  find_entry-append (x ∷ xs) ys key = ground (arith, find_entry-append xs ys key)

  find_entry-nowhere :
      (buckets : List (List (TableEntry V))) (key : ℕ)
      → ((i : ℕ) → count (has_key key) (get_or buckets i []) ≡ 0)
      → find_entry (flatten buckets) key ≡ none
  unfolding flatten find_entry first_or
  find_entry-nowhere [] key nowhere = refl
  find_entry-nowhere (b ∷ bs) key nowhere =
      find_entry-append b (flatten bs) key
      ∙ rw (find_entry-none b key (nowhere 0)) (find_entry-nowhere bs key (λ i. nowhere (suc i)))

  pub first_or-none : (o : Option (TableEntry V)) → first_or o none ≡ o
  unfolding first_or
  first_or-none o = ground arith

  -- A key that stands in one bucket only is found there.
  pub find_entry-flatten :
      (buckets : List (List (TableEntry V))) (slot key : ℕ)
      → ((i : ℕ) → (slot == i) ≡ false → count (has_key key) (get_or buckets i []) ≡ 0)
      → find_entry (flatten buckets) key ≡ find_entry (get_or buckets slot []) key
  unfolding flatten first_or
  find_entry-flatten [] slot key placed = refl
  find_entry-flatten (b ∷ bs) zero key placed =
      find_entry-append b (flatten bs) key
      ∙ (ap (first_or (find_entry b key))
            (find_entry-nowhere bs key (λ i. placed (suc i) (ground arith)))
          ∙ first_or-none (find_entry b key))
  find_entry-flatten (b ∷ bs) (suc slot) key placed =
      find_entry-append b (flatten bs) key
      ∙ rw (find_entry-none b key (placed 0 (ground arith)))
          (find_entry-flatten bs slot key (λ i other. placed (suc i) (ground arith)))

  pub count-flatten-set :
      (q : TableEntry V → Bool) (buckets : List (List (TableEntry V))) (i : ℕ)
      (b : List (TableEntry V))
      → i < length buckets
      → count q (flatten (set buckets i b)) + count q (get_or buckets i [])
        ≡ count q (flatten buckets) + count q b
  unfolding flatten
  count-flatten-set q [] i b lt = absurd (omega arith)
  count-flatten-set q (x ∷ bs) zero b lt =
      omega (arith, count-append q b (flatten bs), count-append q x (flatten bs))
  count-flatten-set q (x ∷ bs) (suc i) b lt = omega (
    arith,
    count-append q x (flatten (set bs i b)),
    count-append q x (flatten bs),
    count-flatten-set q bs i b (omega arith),
  )
