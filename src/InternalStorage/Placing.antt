-- ===== src/InternalStorage/Placing.antt =====
-- The third loop: it ends, and leaves every entry in the run of its bucket.
use cpp_project.Prelude.{
  ℕ, zero, suc, ◌+◌, ◌≤◌, ◌<◌, ◌≡◌, ◌∙◌, ◌⊎◌, refl, List, some, length, count-le-length, get_elem?,
  get_elem?-some, get_or, get_or-set, set, length-set, SameElements, ltb, leb, ◌==◌, ◌&&◌, lt→ltb,
  le→ltb, lt-or_le, inl, inr, arith, true, false, if◌then◌else◌, Bool-cases, lt-length_of_get_elem?,
  bit_and-le_right,
}
use cpp_project.Run.{ok, ◌>>=◌, at-get_elem?, at-get_or, put-set}
use cpp_project.Buckets.{start_of-suc, IsIndexed, IsPlacing, room, advance, finish}
use cpp_project.Buckets.Exchange.{exchange, count-swapped}
use cpp_project.Buckets.Rounds.{filled_places, filled_places-le, filled_places-bump}
use cpp_project.InternalStorage.{Entry, slot, place_loop}

-- The two outcomes of the loop's test.
inside_test : (b i e : ℕ) → (leb b i && leb i e) ≡ true → (b ≤ i) × (i ≤ e)
inside_test b i e h = ground arith

outside_test : (b i e : ℕ) → (leb b i && leb i e) ≡ false → (i < b) ⊎ (e < i)
outside_test b i e h = ground arith

outside_weak : (b i e : ℕ) → (i < b) ⊎ (e < i) → (i < b) ⊎ (e ≤ i)
outside_weak b i e (inl lt) = inl lt
outside_weak b i e (inr lt) = inr (omega arith)

pub slot-le : {K V : Type 0} (hash : K → ℕ) (mask : ℕ) (r : Entry K V) → slot hash mask r ≤ mask
slot-le hash mask r = bit_and-le_right (hash r.first) mask

module _ {K V : Type 0} (hash : K → ℕ) (mask : ℕ) (indexes : List ℕ)
    (wide : mask < length indexes) where
  abbrev bucket : Entry K V → ℕ
  bucket = slot hash mask

  bucket-le : (r : Entry K V) → bucket r ≤ mask
  bucket-le r = slot-le hash mask r

  abbrev pub Placing : List ℕ → List (Entry K V) → ℕ → Type 0
  Placing ends rs i =
      IsPlacing bucket (mask + 1) (λ h. get_or indexes h 0) (λ h. get_or ends h 0) rs i

  bump :
      (ends : List ℕ) (r : Entry K V)
      → mask < length ends
      → (k : ℕ)
      → get_or (set ends (bucket r) (get_or ends (bucket r) 0 + 1)) k 0
        ≡ (if bucket r == k then get_or ends k 0 + 1 else get_or ends k 0)
  bump ends r wide' k =
      let h = bucket r in
      ground (arith, get_or-set ends h k (get_or ends h 0 + 1) 0 (omega (arith, bucket-le r)))

  end_in_range :
      (ends : List ℕ) (rs : List (Entry K V)) (i : ℕ) (r : Entry K V)
      → Placing ends rs i
      → get_elem? rs i ≡ some r
      → (i < get_or indexes (bucket r) 0) ⊎ (get_or ends (bucket r) 0 ≤ i)
      → get_or ends (bucket r) 0 < length rs
  end_in_range ends rs i r inv at_r out = omega (
    arith,
    room bucket inv r i at_r out,
    inv.starts (bucket r) (inv.within r),
    start_of-suc bucket rs (bucket r),
    count-le-length (λ x. ltb (bucket x) (bucket r + 1)) rs,
  )

  pub place_loop_lem :
      (fuel i : ℕ) (ends : List ℕ) (rs : List (Entry K V))
      → mask < length ends
      → i ≤ length rs
      → Placing ends rs i
      → length rs + length rs
        < fuel
          + i
          + filled_places bucket (mask + 1) (λ h. get_or indexes h 0) (λ h. get_or ends h 0)
      → (sorted : List (Entry K V)) × (place_loop hash fuel mask indexes ends rs i ≡ ok sorted)
        × SameElements sorted rs
        × IsIndexed bucket sorted
  unfolding place_loop
  place_loop_lem zero i ends rs wide' le inv enough =
      absurd (omega (arith, filled_places-le bucket inv))
  place_loop_lem (suc fuel) i ends rs wide' le inv enough = elim (lt-or_le i (length rs)) [
    | inl lt ↦
        let (r, at_r) = get_elem?-some rs i lt in
        let h = bucket r in
        let b = get_or indexes h 0 in
        let e = get_or ends h 0 in
        let test = lt→ltb i (length rs) lt in
        let entry_at = at-get_elem? rs i r at_r in
        let begin_at = at-get_or indexes h 0 (omega (arith, bucket-le r)) in
        let end_at = at-get_or ends h 0 (omega (arith, bucket-le r)) in
        elim (Bool-cases (leb b i && leb i e)) [
          | inl inside ↦
              let (sorted, run, same, indexed) =
                place_loop_lem fuel (i + 1) ends rs wide' (omega arith)
                  (advance bucket inv r at_r (inside_test b i e inside).0
                    (inside_test b i e inside).1)
                  (omega arith) in
              (
                sorted,
                rw (place_loop, test, entry_at, ◌>>=◌, end_at, begin_at, inside) run,
                same,
                indexed,
              )
          | inr outside ↦
              let out = outside_weak b i e (outside_test b i e outside) in
              let (y, at_y) = get_elem?-some rs e (end_in_range ends rs i r inv at_r out) in
              let size = length-set rs i y in
              let size' = length-set (set rs i y) e r in
              let (sorted, run, same, indexed) =
                place_loop_lem fuel i (set ends h (e + 1)) (set (set rs i y) e r)
                  (omega (arith, length-set ends h (e + 1))) (omega (arith, size, size'))
                  (exchange bucket inv r y at_r at_y out (bump ends r wide'))
                  (omega (
                    arith,
                    size,
                    size',
                    filled_places-bump bucket (λ k. get_or (set ends h (e + 1)) k 0) h inv
                        (inv.within r) (bump ends r wide'),
                  )) in
              (
                sorted,
                rw
                    (
                      place_loop,
                      test,
                      entry_at,
                      ◌>>=◌,
                      end_at,
                      begin_at,
                      outside,
                      at-get_elem? rs e y at_y,
                      put-set rs i y lt,
                      put-set (set rs i y) e r
                          (omega (arith, size, lt-length_of_get_elem? rs e y at_y)),
                      put-set ends h (e + 1) (omega (arith, bucket-le r)),
                    )
                    run,
                (λ q. same q ∙ count-swapped bucket inv r y at_r at_y out (bump ends r wide') q),
                indexed,
              )
        ]
    | inr ge ↦ (rs, rw (place_loop, le→ltb i (length rs) ge), (λ q. refl), finish bucket inv ge)
  ]
