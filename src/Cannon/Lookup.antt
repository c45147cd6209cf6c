-- ===== src/Cannon/Lookup.antt =====
-- What a table of entries promises: the value that stands behind a key.
use cpp_project.Prelude.{
  ℕ, zero, suc, ◌+◌, ◌*◌, ◌≤◌, ◌≡◌, ◌⊎◌, inl, inr, refl, ap, sym, ◌∙◌, List, [], ◌∷◌, true, Option,
  none, some, length, take, drop, get_elem?, holds_at, holds_at-get_elem?, get_elem?_of_holds_at,
  holds_at_of_count, count, count-pos, SameElements, if◌then◌else◌, arith,
}
use cpp_project.Run.{ok}
use cpp_project.Memory.{read, bytes_equal}
use cpp_project.Memory.Records.{bytes_equal_iff}
use cpp_project.Cannon.HashMap.{HashMap, seek}
use cpp_project.Cannon.HashMap.Invariant.{IsLoaded}
use cpp_project.Cannon.HashMap.Seek.{has_key, seek-cases, value_at}

-- The value of the first entry that has the key.
unfoldable pub lookup : ℕ → List ℕ → List (List ℕ) → Option (List ℕ)
lookup key_size key [] = none
lookup key_size key (entry ∷ rest) =
    if has_key key_size key entry then some (drop key_size entry) else lookup key_size key rest

-- No key occurs twice.
abbrev pub DistinctKeys : ℕ → List (List ℕ) → Type 0
DistinctKeys key_size entries = (key : List ℕ) → count (has_key key_size key) entries ≤ 1

lookup_absent :
    (key_size : ℕ) (key : List ℕ) (entries : List (List ℕ))
    → count (has_key key_size key) entries ≡ 0
    → lookup key_size key entries ≡ none
unfolding lookup count
lookup_absent key_size key [] h = refl
lookup_absent key_size key (x ∷ entries) h = ground (arith, lookup_absent key_size key entries)

lookup_unique :
    (key_size : ℕ) (key : List ℕ) (entries : List (List ℕ)) (p : ℕ) (r : List ℕ)
    → count (has_key key_size key) entries ≤ 1
    → get_elem? entries p ≡ some r
    → has_key key_size key r ≡ true
    → lookup key_size key entries ≡ some (drop key_size r)
unfolding lookup count
lookup_unique key_size key [] p r once at same = cc
lookup_unique key_size key (x ∷ entries) zero r once at same = ground arith
lookup_unique key_size key (x ∷ entries) (suc p) r once at same = ground (
  arith,
  lookup_unique key_size key entries p r,
  count-pos (has_key key_size key) entries p,
  holds_at-get_elem? (has_key key_size key) entries p r at,
)

-- An entry of one list stands in every list with the same elements.
moved :
    (rs entries : List (List ℕ)) (p : ℕ) (r : List ℕ)
    → SameElements rs entries
    → get_elem? rs p ≡ some r
    → (q : ℕ) × (get_elem? entries q ≡ some r)
moved rs entries p r same at =
    let here : holds_at (bytes_equal r) rs p ≡ true =
      holds_at-get_elem? (bytes_equal r) rs p r at ∙ (bytes_equal_iff r r).1 refl in
    let (q, there) =
      holds_at_of_count (bytes_equal r) entries
        (rw (← same (bytes_equal r)) (count-pos (bytes_equal r) rs p here)) in
    let (r', at', e) = get_elem?_of_holds_at (bytes_equal r) entries q there in
    (q, at' ∙ ap some (sym ((bytes_equal_iff r r').0 e)))

-- The search in a loaded table agrees with the look-up in the entries that were loaded, in
-- whatever order they now stand.
pub seek-lookup :
    {m : HashMap} {rs : List (List ℕ)}
    → IsLoaded m rs
    → (entries : List (List ℕ)) (key : List ℕ) → SameElements rs entries
    → DistinctKeys m.key_size entries
    → length key ≡ m.key_size
    → ((seek m key ≡ ok none) × (lookup m.key_size key entries ≡ none))
      ⊎ ((offset : ℕ) × (value : List ℕ) × (seek m key ≡ ok (some offset))
          × (read m.table offset m.value_size ≡ ok value)
          × (lookup m.key_size key entries ≡ some value))
seek-lookup {m} {rs} loaded entries key same distinct size = elim (seek-cases loaded key size) [
  | inl (run, absent) ↦
      inl (run, lookup_absent m.key_size key entries (sym (same (has_key m.key_size key)) ∙ absent))
  | inr (p, r, at_r, key_r, run) ↦
      let (q, at_q) = moved rs entries p r same at_r in
      inr (
        p * m.kv_size + m.key_size,
        drop m.key_size r,
        run,
        value_at loaded p r at_r,
        lookup_unique m.key_size key entries q r (distinct key) at_q
            ((bytes_equal_iff (take m.key_size r) key).1 key_r),
      )
]
