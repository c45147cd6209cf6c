-- ===== src/Cannon/HashMap/Seek.antt =====
-- Looking a key up in a loaded table.
use mathlib.Core.List.{flatten}
use mathlib.Core.Bool.{false≢true}
use native.Mathlib.Nat.{zero-add, le_refl}
use cpp_project.Prelude.{
  ℕ, zero, suc, ◌+◌, ◌-◌, ◌*◌, ◌≤◌, ◌<◌, ◌≡◌, ◌∙◌, ◌⊎◌, inl, inr, refl, ap, sym, Bool, false, List,
  ◌++◌, length-append, Option, none, some, length, take, drop, get_elem?, get_elem?-some, holds_at,
  holds_at-get_elem?, holds_at_of_count, get_elem?_of_holds_at, take-length, le→leb, count,
  count-le-length, ltb, arith, Bool-cases, lt-or_le,
}
use cpp_project.Run.{Run, ok, ◌>>=◌, at, at-get_or}
use cpp_project.Memory.{read, bytes_equal}
use cpp_project.Memory.Records.{
  HaveWidth, read-flatten, read-flatten_tail, bytes_equal_iff, take-append_length,
}
use cpp_project.Buckets.{start_of, start_of_mono}
use cpp_project.Cannon.HashMap.{HashMap, hash_at, mask_of, seek_loop, seek}
use cpp_project.Cannon.HashMap.Invariant.{
  slot, slot_lem, slot-le, slot-eq_of_key, city_hash-digest, IsLoaded,
}

-- The test that the loop makes of an entry.
abbrev pub has_key : ℕ → List ℕ → List ℕ → Bool
has_key key_size key entry = bytes_equal (take key_size entry) key

module _ (m : HashMap) (rs : List (List ℕ)) (table : m.table ≡ flatten rs)
    (widths : HaveWidth m.kv_size rs) (fits : m.key_size ≤ m.kv_size) (key : List ℕ) where
  -- The entry at `p` has the key, and the search returns the place of its value.
  abbrev pub FoundAt : ℕ → List ℕ → Run (Option ℕ) → Type 0
  FoundAt p r run =
      (get_elem? rs p ≡ some r)
      × (take m.key_size r ≡ key)
      × (run ≡ ok (some (p * m.kv_size + m.key_size)))

  abbrev pub AbsentBetween : ℕ → ℕ → Type 0
  AbsentBetween b e = (p : ℕ) → b ≤ p → p < e → holds_at (has_key m.key_size key) rs p ≡ false

  read_key :
      (p : ℕ) (r : List ℕ)
      → get_elem? rs p ≡ some r
      → read m.table (p * m.kv_size) m.key_size ≡ ok (take m.key_size r)
  read_key p r at_r =
      ap (λ t. read t (p * m.kv_size) m.key_size) table
      ∙ read-flatten m.kv_size rs p r m.key_size widths at_r fits

  pub seek_loop_lem :
      (rounds b : ℕ)
      → b + rounds ≤ length rs
      → ((seek_loop rounds m key b ≡ ok none) × AbsentBetween b (b + rounds))
        ⊎ ((p : ℕ) × (r : List ℕ) × FoundAt p r (seek_loop rounds m key b))
  unfolding seek_loop
  seek_loop_lem zero b inside = inl (refl, λ p l r. absurd (omega arith))
  seek_loop_lem (suc rounds) b inside =
      let (r, at_r) = get_elem?-some rs b (omega arith) in
      elim (Bool-cases (has_key m.key_size key r)) [
        | inl here ↦ inr (
          b,
          r,
          (at_r, (bytes_equal_iff _ _).0 here, rw (seek_loop, read_key b r at_r, ◌>>=◌, here)),
        )
        | inr other ↦ elim (seek_loop_lem rounds (b + 1) (omega arith)) [
          | inl (run, absent) ↦ inl (
            rw (seek_loop, read_key b r at_r, ◌>>=◌, other) run,
            λ p l u.
                ground (arith, absent p, holds_at-get_elem? (has_key m.key_size key) rs b r at_r),
          )
          | inr (p, q, (at_q, same, run)) ↦
              inr (p, q, (at_q, same, rw (seek_loop, read_key b r at_r, ◌>>=◌, other) run))
        ]
      ]

read_all : (v : List ℕ) (n : ℕ) → length v ≡ n → read v 0 n ≡ ok v
unfolding read
read_all v n e = rw (← e, zero-add, le→leb _ _ (le_refl (length v))) (ap ok (take-length v))

read_prefix : (v rest : List ℕ) (n : ℕ) → length v ≡ n → read (v ++ rest) 0 n ≡ read v 0 n
unfolding read
read_prefix v rest n e =
    rw
      (
        ← e,
        zero-add,
        le→leb _ _ (le_refl (length v)),
        le→leb (length v) (length (v ++ rest)) (omega (arith, length-append v rest)),
      )
      (ap ok (take-append_length v rest ∙ sym (take-length v)))

-- Only the key's own bytes are read.
pub seek-append :
    (m : HashMap) (key rest : List ℕ) → length key ≡ m.key_size → seek m (key ++ rest) ≡ seek m key
unfolding seek hash_at
seek-append m key rest size = rw (read_prefix key rest m.key_size size)

module _ {m : HashMap} {rs : List (List ℕ)} (loaded : IsLoaded m rs) where
  fits : m.key_size ≤ m.kv_size
  fits = omega (arith, loaded.sizes)

  hash_key :
      (key : List ℕ)
      → length key ≡ m.key_size
      → hash_at m.key_size loaded.mask key 0 ≡ ok (slot m.key_size loaded.mask key)
  unfolding hash_at
  hash_key key size = rw (
    read_all key m.key_size size,
    ◌>>=◌,
    city_hash-digest key,
    slot_lem m.key_size loaded.mask key size,
  )

  -- An entry with the key stands in the run of the key's bucket.
  in_bucket :
      (key : List ℕ) (p : ℕ) (r : List ℕ)
      → length key ≡ m.key_size
      → get_elem? rs p ≡ some r
      → take m.key_size r ≡ key
      → let h = slot m.key_size loaded.mask key in
        (start_of (slot m.key_size loaded.mask) rs h ≤ p)
        × (p < start_of (slot m.key_size loaded.mask) rs (h + 1))
  in_bucket key p r size at_r same =
      let e : take m.key_size r ≡ take m.key_size key =
        same ∙ sym (rw (← size) (take-length key)) in
      rw (← slot-eq_of_key m.key_size loaded.mask r key e) (loaded.indexed p r at_r)

  absent_everywhere :
      (key : List ℕ)
      → length key ≡ m.key_size
      → (let h = slot m.key_size loaded.mask key in
          AbsentBetween m rs loaded.table loaded.widths fits key
            (start_of (slot m.key_size loaded.mask) rs h)
            (start_of (slot m.key_size loaded.mask) rs (h + 1)))
      → count (has_key m.key_size key) rs ≡ 0
  absent_everywhere key size absent = elim (lt-or_le 0 (count (has_key m.key_size key) rs)) [
    | inl some_entry ↦
        let (p, at_p) = holds_at_of_count (has_key m.key_size key) rs some_entry in
        let (r, at_r, same) = get_elem?_of_holds_at (has_key m.key_size key) rs p at_p in
        let (low, high) = in_bucket key p r size at_r ((bytes_equal_iff _ _).0 same) in
        absurd (false≢true (sym (absent p low high) ∙ at_p))
    | inr none_left ↦ omega arith
  ]

  -- A search ends without a fault. It finds no entry exactly if no entry has the key; otherwise
  -- it returns the place of the value of an entry that has the key.
  pub seek-cases :
      (key : List ℕ)
      → length key ≡ m.key_size
      → ((seek m key ≡ ok none) × (count (has_key m.key_size key) rs ≡ 0))
        ⊎ ((p : ℕ) × (r : List ℕ) × (get_elem? rs p ≡ some r)
            × (take m.key_size r ≡ key)
            × (seek m key ≡ ok (some (p * m.kv_size + m.key_size))))
  unfolding seek
  seek-cases key size =
      let h = slot m.key_size loaded.mask key in
      let h_in : h < loaded.mask + 1 = omega (arith, slot-le m.key_size loaded.mask key) in
      let b = start_of (slot m.key_size loaded.mask) rs h in
      let e = start_of (slot m.key_size loaded.mask) rs (h + 1) in
      let ordered : b + (e - b) ≡ e =
        omega (arith, start_of_mono (slot m.key_size loaded.mask) rs h (h + 1) (omega arith)) in
      let begin_at : at m.indexes h ≡ ok b =
        at-get_or m.indexes h 0 (omega (arith, loaded.index_size))
        ∙ ap ok (loaded.indexes h (omega arith)) in
      let end_at : at m.indexes (h + 1) ≡ ok e =
        at-get_or m.indexes (h + 1) 0 (omega (arith, loaded.index_size))
        ∙ ap ok (loaded.indexes (h + 1) (omega arith)) in
      let search =
        seek_loop_lem m rs loaded.table loaded.widths fits key (e - b) b
          (omega (arith, count-le-length (λ x. ltb (slot m.key_size loaded.mask x) (h + 1)) rs)) in
      let masked : mask_of m ≡ ok loaded.mask = unfold mask_of in rw (loaded.masked, mask_of) in
      elim search [
        | inl (run, absent) ↦ inl (
          rw
              (
                masked,
                ◌>>=◌,
                hash_key key size,
                ◌>>=◌,
                begin_at,
                ◌>>=◌,
                end_at,
                ◌>>=◌,
                read_all key m.key_size size,
              )
              run,
          absent_everywhere key size (λ p l u. absent p l (omega arith)),
        )
        | inr (p, r, (at_r, same, run)) ↦ inr (
          p,
          r,
          at_r,
          same,
          rw
              (
                masked,
                ◌>>=◌,
                hash_key key size,
                ◌>>=◌,
                begin_at,
                ◌>>=◌,
                end_at,
                ◌>>=◌,
                read_all key m.key_size size,
              )
              run,
        )
      ]

  -- What a reader finds behind the place that the search returns.
  pub value_at :
      (p : ℕ) (r : List ℕ)
      → get_elem? rs p ≡ some r
      → read m.table (p * m.kv_size + m.key_size) m.value_size ≡ ok (drop m.key_size r)
  value_at p r at_r =
      ap (λ t. read t (p * m.kv_size + m.key_size) m.value_size) loaded.table
      ∙ read-flatten_tail m.kv_size rs p r m.key_size m.value_size loaded.widths at_r
          (sym loaded.sizes)
