-- ===== src/InternalStorage/Find.antt =====
-- Searching a constructed table.
use mathlib.Core.Bool.{false≢true}
use cpp_project.Prelude.{
  ℕ, zero, suc, ◌+◌, ◌-◌, ◌≤◌, ◌<◌, ◌≡◌, ◌∙◌, ◌⊎◌, ◌↔◌, inl, inr, refl, ap, sym, Bool, true, false,
  List, Option, none, some, length, get_elem?, get_elem?-some, holds_at, holds_at-get_elem?,
  holds_at_of_count, get_elem?_of_holds_at, count, count-le-length, count-congr, count-true,
  SameElements, ltb, lt→ltb, ◌==◌, ==_iff, if◌then◌else◌, arith, Bool-cases, lt-or_le, bit_and,
  bit_and-le_right,
}
use cpp_project.Run.{Run, ok, ◌>>=◌, at, at-get_elem?, at-get_or}
use cpp_project.Buckets.{start_of, start_of_mono}
use cpp_project.InternalStorage.{Entry, SortedTable, slot, construct, find_loop, find}
use cpp_project.InternalStorage.Placing.{slot-le}
use cpp_project.InternalStorage.Built.{IsSorted, construct-IsSorted}

module _ {K V : Type 0} (hash : K → ℕ) (key_eq : K → K → Bool) where
  -- The test that the search makes of an entry.
  abbrev pub has_key : K → Entry K V → Bool
  has_key key entry = key_eq entry.first key

  module _ (table : List (Entry K V)) (key : K) where
    abbrev AbsentBetween : ℕ → ℕ → Type 0
    AbsentBetween b e = (p : ℕ) → b ≤ p → p < e → holds_at (has_key key) table p ≡ false

    abbrev Found : Run (Option ℕ) → Type 0
    Found run =
        (p : ℕ) × (entry : Entry K V) × (run ≡ ok (some p))
        × (get_elem? table p ≡ some entry)
        × (has_key key entry ≡ true)

    find_loop_lem :
        (rounds b : ℕ)
        → b + rounds ≤ length table
        → ((find_loop hash key_eq rounds table key b ≡ ok none) × AbsentBetween b (b + rounds))
          ⊎ Found (find_loop hash key_eq rounds table key b)
    unfolding find_loop
    find_loop_lem zero b inside = inl (refl, λ p l r. absurd (omega arith))
    find_loop_lem (suc rounds) b inside =
        let (r, at_r) = get_elem?-some table b (omega arith) in
        elim (Bool-cases (has_key key r)) [
          | inl here ↦
              inr (b, r, rw (find_loop, at-get_elem? table b r at_r, ◌>>=◌, here), at_r, here)
          | inr other ↦ elim (find_loop_lem rounds (b + 1) (omega arith)) [
            | inl (run, absent) ↦ inl (
              rw (find_loop, at-get_elem? table b r at_r, ◌>>=◌, other) run,
              λ p l u. ground (arith, absent p, holds_at-get_elem? (has_key key) table b r at_r),
            )
            | inr (p, q, run, at_q, same) ↦
                inr
                  (p, q, rw (find_loop, at-get_elem? table b r at_r, ◌>>=◌, other) run, at_q, same)
          ]
        ]

  module _ (t : SortedTable K V) (kvs : List (Entry K V)) (sorted : IsSorted hash t kvs) where
    abbrev starts : ℕ → ℕ
    starts h = start_of (slot {V = V} hash t.size_mask) t.table h

    -- The run of the last bucket ends with the table.
    starts-last : starts (t.size_mask + 1) ≡ length t.table
    starts-last =
        count-congr (λ x. ltb (slot hash t.size_mask x) (t.size_mask + 1)) (λ x. true)
          (λ x. lt→ltb _ _ (omega (arith, slot-le hash t.size_mask x))) t.table
        ∙ count-true t.table

    run_end :
        (h : ℕ)
        → h < t.size_mask + 1
        → (if h == t.size_mask then ok (length t.table) else at t.indexes (h + 1))
          ≡ ok (starts (h + 1))
    run_end h lt = elim (Bool-cases (h == t.size_mask)) [
      | inl last ↦
          rw last
            (ap ok (sym starts-last ∙ ap starts (omega (arith, (==_iff h t.size_mask).0 last))))
      | inr inner ↦
          let lt' : h + 1 < t.size_mask + 1 = ground arith in
          rw inner (
            at-get_or t.indexes (h + 1) 0 (omega (arith, sorted.index_size))
            ∙ ap ok (sorted.indexes (h + 1) lt'))
    ]

    -- A key that is in no place of its run is in no entry.
    absent_all :
        ((a b : K) → (key_eq a b ≡ true) ↔ (a ≡ b))
        → (key : K)
        → (let h = bit_and (hash key) t.size_mask in
            AbsentBetween t.table key (starts h) (starts (h + 1)))
        → count (has_key key) kvs ≡ 0
    absent_all exact key absent = elim (lt-or_le 0 (count (has_key key) t.table)) [
      | inl some_entry ↦
          let (p, at_p) = holds_at_of_count (has_key key) t.table some_entry in
          let (r, at_r, same) = get_elem?_of_holds_at (has_key key) t.table p at_p in
          let (low, high) = sorted.indexed p r at_r in
          let e = (exact r.first key).0 same in
          let low' = ap (λ k. starts (bit_and (hash k) t.size_mask)) e in
          let high' = ap (λ k. starts (bit_and (hash k) t.size_mask + 1)) e in
          absurd (
            false≢true
              (sym (absent p (omega (arith, low', low)) (omega (arith, high', high))) ∙ at_p))
      | inr none_left ↦ omega (arith, sorted.same (has_key key))
    ]

    find_cases :
        ((a b : K) → (key_eq a b ≡ true) ↔ (a ≡ b))
        → (key : K)
        → ((find hash key_eq t key ≡ ok none) × (count (has_key key) kvs ≡ 0))
          ⊎ Found t.table key (find hash key_eq t key)
    unfolding find
    find_cases exact key =
        let h = bit_and (hash key) t.size_mask in
        let h_in : h < t.size_mask + 1 = omega (arith, bit_and-le_right (hash key) t.size_mask) in
        let b = starts h in
        let e = starts (h + 1) in
        let ordered : b + (e - b) ≡ e =
          omega (
            arith,
            start_of_mono (slot {V = V} hash t.size_mask) t.table h (h + 1) (omega arith),
          ) in
        let begin_at : at t.indexes h ≡ ok b =
          at-get_or t.indexes h 0 (omega (arith, sorted.index_size))
          ∙ ap ok (sorted.indexes h h_in) in
        elim (find_loop_lem t.table key (e - b) b
          (omega (arith, count-le-length (λ x. ltb (slot hash t.size_mask x) (h + 1)) t.table))) [
            | inl (run, absent) ↦ inl (
              rw (begin_at, ◌>>=◌, run_end h h_in) run,
              absent_all exact key (λ p l u. absent p l (omega arith)),
            )
            | inr (p, r, run, at_r, same) ↦
                inr (p, r, rw (begin_at, ◌>>=◌, run_end h h_in) run, at_r, same)
          ]

  -- The constructor ends without a fault, with the same entries in some order; and then each search
  -- ends without a fault: it returns nothing and no entry has the key, or it returns the place of an
  -- entry that has the key. Two keys are equal by the test just if they are the same.
  pub find-construct :
      (kvs : List (Entry K V))
      → ((a b : K) → (key_eq a b ≡ true) ↔ (a ≡ b))
      → (t : SortedTable K V) × (construct hash kvs ≡ ok t)
        × SameElements t.table kvs
        × ((key : K)
            → ((find hash key_eq t key ≡ ok none) × (count (has_key key) kvs ≡ 0))
              ⊎ ((p : ℕ) × (entry : Entry K V) × (find hash key_eq t key ≡ ok (some p))
                  × (get_elem? t.table p ≡ some entry)
                  × (entry.first ≡ key)))
  find-construct kvs exact =
      let (t, run, sorted) = construct-IsSorted hash kvs in
      (
        t,
        run,
        sorted.same,
        λ key. elim (find_cases t kvs sorted exact key) [
          | inl missing ↦ inl missing
          | inr (p, r, found, at_r, same) ↦ inr (p, r, found, at_r, (exact r.first key).0 same)
        ],
      )
