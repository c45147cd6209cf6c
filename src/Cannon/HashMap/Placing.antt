-- ===== src/Cannon/HashMap/Placing.antt =====
-- The third loop: it ends, and leaves every entry in the run of its bucket.
use mathlib.Core.List.{flatten}
use cpp_project.Prelude.{
  ℕ, zero, suc, ◌+◌, ◌≤◌, ◌<◌, ◌≡◌, ◌∙◌, ◌⊎◌, refl, ap, sym, List, [], ◌∷◌, some, length, take,
  take-length, count-le-length, get_elem?, get_elem?-some, get_or, get_or-set, set, length-set,
  SameElements, ltb, leb, ◌==◌, ◌&&◌, lt→ltb, le→ltb, lt-or_le, inl, inr, arith, true, false,
  if◌then◌else◌, Bool-cases, lt-length_of_get_elem?, ==_iff,
}
use mathlib.Core.Path.{subst}
use native.Mathlib.Nat.{le_refl, le_of_lt}
use cpp_project.Run.{ok, ◌>>=◌, at-get_or, put-set}
use cpp_project.Memory.Records.{
  HaveWidth, HaveWidth-get_elem?, HaveWidth-set, read-flatten, write-flatten,
}
use cpp_project.Buckets.{start_of-suc, IsIndexed, IsPlacing, room, advance, finish}
use cpp_project.Buckets.Exchange.{exchange, count-swapped}
use cpp_project.Buckets.Rounds.{filled_places, filled_places-le, filled_places-bump}
use cpp_project.Cannon.HashMap.{HashMap, place_loop, swap_kv}
use cpp_project.Cannon.HashMap.Invariant.{slot, slot-le, hash_at-slot}

-- A whole record is all that is read of it.
take_whole : (w : ℕ) (r : List ℕ) → length r ≡ w → take w r ≡ r
take_whole w r e = rw (← e) (take-length r)

set_twice {ℓ} :
    {A : Type ℓ} (xs : List A) (i : ℕ) (x : A) → get_elem? xs i ≡ some x → set (set xs i x) i x ≡ xs
set_twice [] i x e = refl
set_twice (y ∷ xs) zero x e = cc
set_twice (y ∷ xs) (suc i) x e = ap (◌∷◌ y) (set_twice xs i x e)

same_entry :
    (rs : List (List ℕ)) (i j : ℕ) (x y : List ℕ)
    → get_elem? rs i ≡ some x
    → get_elem? rs j ≡ some y
    → i ≡ j
    → y ≡ x
same_entry rs i j x y at_i at_j e = cc

-- The two outcomes of the loop's test.
pub filled_test : (b i e : ℕ) → (leb b i && ltb i e) ≡ true → (b ≤ i) × (i < e)
filled_test b i e h = ground arith

pub unfilled_test : (b i e : ℕ) → (leb b i && ltb i e) ≡ false → (i < b) ⊎ (e ≤ i)
unfilled_test b i e h = ground arith

-- Exchanging two records in the vector of bytes.
swap_kv-flatten :
    (w : ℕ) (rs : List (List ℕ)) (i j : ℕ) (x y : List ℕ)
    → HaveWidth w rs
    → get_elem? rs i ≡ some x
    → get_elem? rs j ≡ some y
    → swap_kv w (flatten rs) i j ≡ ok (flatten (set (set rs i y) j x))
unfolding swap_kv
swap_kv-flatten w rs i j x y widths at_i at_j = elim (Bool-cases (i == j)) [
  | inl same ↦
      let e = (==_iff i j).0 same in
      let twice : set (set rs i y) j x ≡ rs =
        subst (λ k. set (set rs i y) k x ≡ rs) e
          (ap (λ v. set (set rs i v) i x) (same_entry rs i j x y at_i at_j e)
            ∙ set_twice rs i x at_i) in
      rw (same, twice)
  | inr other ↦
      let x_width = HaveWidth-get_elem? w rs i x widths at_i in
      let y_width = HaveWidth-get_elem? w rs j y widths at_j in
      let i_in = lt-length_of_get_elem? rs i x at_i in
      let j_in = lt-length_of_get_elem? rs j y at_j in
      rw
        (
          other,
          read-flatten w rs i x w widths at_i (le_refl w),
          take_whole w x x_width,
          ◌>>=◌,
          read-flatten w rs j y w widths at_j (le_refl w),
          take_whole w y y_width,
          write-flatten w rs i y widths i_in y_width,
        )
        (write-flatten w (set rs i y) j x (HaveWidth-set w rs i y widths y_width)
          (omega (arith, length-set rs i y)) x_width)
]

module _ (m : HashMap) (mask : ℕ) (begins : List ℕ) (fits : m.key_size ≤ m.kv_size)
    (begins_wide : mask < length begins) where
  swapped-length :
      (rs : List (List ℕ)) (i e : ℕ) (r y : List ℕ) → length (set (set rs i y) e r) ≡ length rs
  swapped-length rs i e r y = length-set (set rs i y) e r ∙ length-set rs i y

  swapped-widths :
      (rs : List (List ℕ)) (i e : ℕ) (r y : List ℕ)
      → HaveWidth m.kv_size rs
      → get_elem? rs i ≡ some r
      → get_elem? rs e ≡ some y
      → HaveWidth m.kv_size (set (set rs i y) e r)
  swapped-widths rs i e r y widths at_r at_y =
      HaveWidth-set m.kv_size (set rs i y) e r
        (HaveWidth-set m.kv_size rs i y widths (HaveWidth-get_elem? m.kv_size rs e y widths at_y))
        (HaveWidth-get_elem? m.kv_size rs i r widths at_r)

  bump :
      (ends : List ℕ) (r : List ℕ)
      → mask < length ends
      → (k : ℕ)
      → get_or (set ends (slot m.key_size mask r) (get_or ends (slot m.key_size mask r) 0 + 1)) k 0
        ≡ (if slot m.key_size mask r == k then get_or ends k 0 + 1 else get_or ends k 0)
  bump ends r wide k =
      let h = slot m.key_size mask r in
      ground (
        arith,
        get_or-set ends h k (get_or ends h 0 + 1) 0 (omega (arith, slot-le m.key_size mask r)),
      )

  end_in_range :
      (ends : List ℕ) (rs : List (List ℕ)) (j : ℕ)
      → IsPlacing
          (slot m.key_size mask)
          (mask + 1)
          (λ h. get_or begins h 0)
          (λ h. get_or ends h 0)
          rs
          j
      → (r : List ℕ) (i : ℕ) → get_elem? rs i ≡ some r
      → (i < get_or begins (slot m.key_size mask r) 0)
        ⊎ (get_or ends (slot m.key_size mask r) 0 ≤ i)
      → get_or ends (slot m.key_size mask r) 0 < length rs
  end_in_range ends rs j inv r i at_r out = omega (
    arith,
    room (slot m.key_size mask) inv r i at_r out,
    inv.starts (slot m.key_size mask r) (inv.within r),
    start_of-suc (slot m.key_size mask) rs (slot m.key_size mask r),
    count-le-length (λ x. ltb (slot m.key_size mask x) (slot m.key_size mask r + 1)) rs,
  )

  -- The result of the loop on the table of the entries `rs`.
  abbrev pub IsPlaced : List (List ℕ) → List (List ℕ) → Type 0
  IsPlaced rs sorted =
      HaveWidth m.kv_size sorted × SameElements sorted rs × IsIndexed (slot m.key_size mask) sorted

  pub place_loop_lem :
      (fuel i : ℕ) (ends : List ℕ) (rs : List (List ℕ))
      → HaveWidth m.kv_size rs
      → m.kv_count ≡ length rs
      → mask < length ends
      → i ≤ length rs
      → IsPlacing
          (slot m.key_size mask)
          (mask + 1)
          (λ h. get_or begins h 0)
          (λ h. get_or ends h 0)
          rs
          i
      → length rs + length rs
        < fuel
          + i
          + filled_places
              (slot m.key_size mask)
              (mask + 1)
              (λ h. get_or begins h 0)
              (λ h. get_or ends h 0)
      → (sorted : List (List ℕ)) × (place_loop fuel m mask begins ends (flatten rs) i
          ≡ ok (flatten sorted))
        × IsPlaced rs sorted
  unfolding place_loop
  place_loop_lem zero i ends rs widths size wide le inv enough =
      absurd (omega (arith, filled_places-le (slot m.key_size mask) inv))
  place_loop_lem (suc fuel) i ends rs widths size wide le inv enough =
      elim (lt-or_le i (length rs)) [
        | inl lt ↦
            let (r, at_r) = get_elem?-some rs i lt in
            let h = slot m.key_size mask r in
            let b = get_or begins h 0 in
            let e = get_or ends h 0 in
            let test = lt→ltb i m.kv_count (omega arith) in
            let hash = hash_at-slot m.key_size mask m.kv_size rs i r widths at_r fits in
            let begin_at = at-get_or begins h 0 (omega (arith, slot-le m.key_size mask r)) in
            let end_at = at-get_or ends h 0 (omega (arith, slot-le m.key_size mask r)) in
            elim (Bool-cases (leb b i && ltb i e)) [
              | inl inside ↦
                  let (sorted, run, result) =
                    place_loop_lem fuel (i + 1) ends rs widths size wide (omega arith)
                      (advance (slot m.key_size mask) inv r at_r (filled_test b i e inside).0
                        (le_of_lt (filled_test b i e inside).1))
                      (omega arith) in
                  (sorted, rw (place_loop, test, hash, begin_at, end_at, ◌>>=◌, inside) run, result)
              | inr outside ↦
                  let out = unfilled_test b i e outside in
                  let (y, at_y) = get_elem?-some rs e (end_in_range ends rs i inv r i at_r out) in
                  let (sorted, run, (widths', same, indexed)) =
                    place_loop_lem fuel i (set ends h (e + 1)) (set (set rs i y) e r)
                      (swapped-widths rs i e r y widths at_r at_y)
                      (size ∙ sym (swapped-length rs i e r y))
                      (omega (arith, length-set ends h (e + 1)))
                      (omega (arith, swapped-length rs i e r y))
                      (exchange (slot m.key_size mask) inv r y at_r at_y out (bump ends r wide))
                      (omega (
                        arith,
                        swapped-length rs i e r y,
                        filled_places-bump (slot m.key_size mask)
                            (λ k. get_or (set ends h (e + 1)) k 0) h inv (inv.within r)
                            (bump ends r wide),
                      )) in
                  (
                    sorted,
                    rw
                        (
                          place_loop,
                          test,
                          hash,
                          begin_at,
                          end_at,
                          ◌>>=◌,
                          outside,
                          swap_kv-flatten m.kv_size rs i e r y widths at_r at_y,
                          put-set ends h (e + 1) (omega (arith, slot-le m.key_size mask r)),
                        )
                        run,
                    (
                      widths',
                      λ q.
                          same q
                          ∙ count-swapped (slot m.key_size mask) inv r y at_r at_y out
                              (bump ends r wide) q,
                      indexed,
                    ),
                  )
            ]
        | inr ge ↦ (
          rs,
          rw (place_loop, le→ltb i m.kv_count (omega arith)),
          (widths, λ q. refl, finish (slot m.key_size mask) inv ge),
        )
      ]
