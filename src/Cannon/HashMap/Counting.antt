-- ===== src/Cannon/HashMap/Counting.antt =====
-- The first two loops: how many entries each bucket has, and where each bucket begins.
use mathlib.Core.List.{flatten}
use native.Mathlib.Nat.{add-zero}
use cpp_project.Prelude.{
  ℕ, zero, suc, ◌+◌, ◌*◌, ◌≤◌, ◌<◌, ◌≡◌, ◌∙◌, refl, ap, List, [], ◌∷◌, some, length, drop,
  replicate, get_elem?, get_elem?-some, get_or, get_or-set, set, length-set, count, ltb, lt→ltb,
  le→ltb, lt-or_le, inl, inr, arith, true, false,
}
use cpp_project.Run.{ok, at, at-get_or, put-set}
use cpp_project.Memory.Records.{HaveWidth, length-flatten}
use cpp_project.Buckets.{start_of, size_of, start_of-suc}
use cpp_project.Cannon.HashMap.{HashMap, hash_at, count_loop, begins_loop, resize}
use cpp_project.Cannon.HashMap.Invariant.{slot, slot-le, hash_at-slot}

pub resize-nil : (n x : ℕ) → resize n [] x ≡ replicate n x
unfolding resize
resize-nil zero x = refl
resize-nil (suc n) x = ap (◌∷◌ x) (resize-nil n x)

pub get_or-replicate : (n h x : ℕ) → get_or (replicate n x) h x ≡ x
get_or-replicate zero h x = refl
get_or-replicate (suc n) zero x = refl
get_or-replicate (suc n) (suc h) x = get_or-replicate n h x

drop_step {ℓ} :
    {A : Type ℓ} (xs : List A) (j : ℕ) (x : A)
    → get_elem? xs j ≡ some x
    → drop j xs ≡ x ∷ drop (suc j) xs
drop_step [] j x e = cc
drop_step (y ∷ xs) zero x e = cc
drop_step (y ∷ xs) (suc j) x e = drop_step xs j x e

drop_all {ℓ} : {A : Type ℓ} (xs : List A) (j : ℕ) → length xs ≤ j → drop j xs ≡ []
drop_all [] zero h = refl
drop_all [] (suc j) h = refl
drop_all (x ∷ xs) zero h = absurd (omega arith)
drop_all (x ∷ xs) (suc j) h = drop_all xs j (omega arith)

product_lt : (i n w : ℕ) → 0 < w → i < n → i * w < n * w
product_lt i n w pos lt = grind arith

product_le : (i n w : ℕ) → n ≤ i → n * w ≤ i * w
product_le i n w le = grind arith

module _ (m : HashMap) (mask : ℕ) (rs : List (List ℕ)) (table : m.table ≡ flatten rs)
    (widths : HaveWidth m.kv_size rs) (pos : 0 < m.kv_size) (fits : m.key_size ≤ m.kv_size) where
  -- The counts so far, and the entries that are left, make up the counts.
  abbrev pub Counted : ℕ → List ℕ → Type 0
  Counted j indexes =
      (h : ℕ)
      → get_or indexes h 0 + size_of (slot m.key_size mask) (drop j rs) h
        ≡ size_of (slot m.key_size mask) rs h

  Counted-step :
      (j : ℕ) (r : List ℕ) (indexes : List ℕ)
      → get_elem? rs j ≡ some r
      → slot m.key_size mask r < length indexes
      → Counted j indexes
      → Counted
          (suc j)
          (set indexes (slot m.key_size mask r) (get_or indexes (slot m.key_size mask r) 0 + 1))
  unfolding count
  Counted-step j r indexes at lt before h = ground (
    arith,
    before h,
    ap (λ l. size_of (slot m.key_size mask) l h) (drop_step rs j r at),
    get_or-set indexes (slot m.key_size mask r) h (get_or indexes (slot m.key_size mask r) 0 + 1) 0
        lt,
  )

  test : (j : ℕ) → j < length rs → ltb (j * m.kv_size) (length m.table) ≡ true
  test j lt = lt→ltb _ _ (
      omega (
        arith,
        ap length table,
        length-flatten m.kv_size rs widths,
        product_lt j (length rs) m.kv_size pos lt,
      ))

  stop : (j : ℕ) → length rs ≤ j → ltb (j * m.kv_size) (length m.table) ≡ false
  stop j le = le→ltb _ _ (
      omega (
        arith,
        ap length table,
        length-flatten m.kv_size rs widths,
        product_le j (length rs) m.kv_size le,
      ))

  hash :
      (j : ℕ) (r : List ℕ)
      → get_elem? rs j ≡ some r
      → hash_at m.key_size mask m.table (j * m.kv_size) ≡ ok (slot m.key_size mask r)
  hash j r at_r =
      ap (λ t. hash_at m.key_size mask t (j * m.kv_size)) table
      ∙ hash_at-slot m.key_size mask m.kv_size rs j r widths at_r fits

  pub count_loop_lem :
      (fuel j : ℕ) (indexes : List ℕ)
      → j ≤ length rs
      → length rs < fuel + j
      → mask < length indexes
      → Counted j indexes
      → (counts : List ℕ) × (count_loop fuel m mask (j * m.kv_size) indexes ≡ ok counts)
        × (length counts ≡ length indexes)
        × ((h : ℕ) → get_or counts h 0 ≡ size_of (slot m.key_size mask) rs h)
  unfolding count_loop count
  count_loop_lem zero j indexes le enough wide before = absurd (omega arith)
  count_loop_lem (suc fuel) j indexes le enough wide before = elim (lt-or_le j (length rs)) [
    | inl lt ↦
        let (r, at_r) = get_elem?-some rs j lt in
        let h = slot m.key_size mask r in
        let inside : h < length indexes = omega (arith, slot-le m.key_size mask r) in
        let n = get_or indexes h 0 + 1 in
        let (counts, run, size, total) =
          count_loop_lem fuel (suc j) (set indexes h n) lt (omega arith)
            (omega (arith, length-set indexes h n)) (Counted-step j r indexes at_r inside before) in
        let advance : j * m.kv_size + m.kv_size ≡ suc j * m.kv_size = omega arith in
        (
          counts,
          rw
              (
                count_loop,
                test j lt,
                hash j r at_r,
                at-get_or indexes h 0 inside,
                put-set indexes h n inside,
                advance,
              )
              run,
          size ∙ length-set indexes h n,
          total,
        )
    | inr ge ↦ (
      indexes,
      rw (count_loop, stop j ge),
      refl,
      λ h.
          ground (arith, before h, ap (λ l. size_of (slot m.key_size mask) l h) (drop_all rs j ge)),
    )
  ]

-- From counts to beginnings, for the buckets from `k` on.
pub begins_loop_lem {ℓ} :
    {A : Type ℓ} (s : A → ℕ) (rs : List A) (counts : List ℕ) (k current : ℕ)
    → current ≡ start_of s rs k
    → ((h : ℕ) → h < length counts → get_or counts h 0 ≡ size_of s rs (k + h))
    → (h : ℕ) → h < length counts
    → get_or (begins_loop current counts) h 0 ≡ start_of s rs (k + h)
unfolding begins_loop
begins_loop_lem s rs [] k current e c h lt = absurd (omega arith)
begins_loop_lem s rs (x ∷ counts) k current e c zero lt = rw add-zero e
begins_loop_lem s rs (x ∷ counts) k current e c (suc h) lt =
    let shift : k + suc h ≡ k + 1 + h = omega arith in
    rw shift (
      begins_loop_lem s rs counts (k + 1) (current + x)
        (omega (arith, start_of-suc s rs k, c 0 (omega arith), ap (size_of s rs) (add-zero k)))
        (λ h' l. c (suc h') (omega arith) ∙ ap (size_of s rs) (omega arith)) h (omega arith))

pub length-begins_loop :
    (counts : List ℕ) (current : ℕ) → length (begins_loop current counts) ≡ length counts
unfolding begins_loop
length-begins_loop [] current = refl
length-begins_loop (x ∷ counts) current = ap suc (length-begins_loop counts (current + x))
