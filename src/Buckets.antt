-- ===== src/Buckets.antt =====
-- The theory behind the two tables that sort their entries by hash in place. `begins h` is where
-- the run of bucket `h` starts in the table, `ends h` is how far it is filled, and `i` is the
-- position that the loop looks at.
pub mod Exchange
pub mod Rounds
use cpp_project.Prelude.{
  ℕ, zero, suc, ◌+◌, ◌-◌, ◌≤◌, ◌<◌, ◌≡◌, ◌≢◌, ◌⊎◌, inl, inr, Bool, true, false, ◌&&◌, Option, some,
  List, arith, ltb, leb, ◌==◌, if◌then◌else◌, lt-or_le, length, get_elem?, set, holds_at,
  holds_at-set, holds_at-get_elem?, length-set, count, count-set, count-split, count_run,
  count_run_and_one, count_mono, holds_at_mono, to_nat, count-swap, refl, Bool-cases, ltb→lt,
  lt→ltb, lt-length_of_get_elem?,
}

module _ {ℓ} {A : Type ℓ} (slot : A → ℕ) where
  -- Where bucket `h` begins when the entries are in order: behind all entries of lower buckets.
  abbrev pub start_of : List A → ℕ → ℕ
  start_of xs h = count (λ x. ltb (slot x) h) xs

  abbrev pub size_of : List A → ℕ → ℕ
  size_of xs h = count (λ x. slot x == h) xs

  pub start_of-suc : (xs : List A) (h : ℕ) → start_of xs (h + 1) ≡ start_of xs h + size_of xs h
  start_of-suc xs h =
      count-split (λ x. ltb (slot x) (h + 1)) (λ x. ltb (slot x) h) (λ x. slot x == h)
        (λ x. ground arith) xs

  pub start_of_mono : (xs : List A) (h k : ℕ) → h ≤ k → start_of xs h ≤ start_of xs k
  start_of_mono xs h k le = count_mono _ _ (λ x e. ground arith) xs

  -- Every entry stands in the run of its bucket.
  abbrev pub IsIndexed : List A → Type ℓ
  IsIndexed xs =
      (p : ℕ) (x : A)
      → get_elem? xs p ≡ some x
      → (start_of xs (slot x) ≤ p) × (p < start_of xs (slot x + 1))

  -- The invariant of the placing loop over `width` buckets.
  pub record IsPlacing (width : ℕ) (begins ends : ℕ → ℕ) (xs : List A) (i : ℕ) : Type ℓ where
    pub within : (x : A) → slot x < width
    pub starts : (h : ℕ) → h < width → begins h ≡ start_of xs h
    pub ordered : (h : ℕ) → h < width → begins h ≤ ends h
    pub filled :
        (h p : ℕ) → h < width → begins h ≤ p → p < ends h → holds_at (λ x. slot x == h) xs p ≡ true
    pub placed :
        (p : ℕ)
        → p < i
        → holds_at (λ x. leb (begins (slot x)) p && leb p (ends (slot x))) xs p ≡ true

  module _ {width : ℕ} {begins ends : ℕ → ℕ} {xs : List A} {i : ℕ}
      (inv : IsPlacing width begins ends xs i) where
    pub ends-le : (h : ℕ) → h < width → ends h ≤ begins h + size_of xs h
    ends-le h lt =
        count_run (λ x. slot x == h) xs (begins h) (ends h) (inv.ordered h lt)
          (λ p l r. inv.filled h p lt l r)

    -- An entry that stands outside of the filled part of its bucket finds room in it.
    pub room :
        (x : A) (p : ℕ)
        → get_elem? xs p ≡ some x
        → (p < begins (slot x)) ⊎ (ends (slot x) ≤ p)
        → ends (slot x) < begins (slot x) + size_of xs (slot x)
    room x p at out =
        let h = slot x in
        count_run_and_one (λ x. slot x == h) xs (begins h) (ends h) p (inv.ordered h (inv.within x))
          (λ p l r. inv.filled h p (inv.within x) l r)
          (ground (arith, holds_at-get_elem? (λ x. slot x == h) xs p x at)) out

    -- Two buckets share no position.
    pub apart :
        (h k p : ℕ)
        → h < width
        → k < width
        → begins h ≤ p
        → p < begins h + size_of xs h
        → begins k ≤ p
        → p < ends k
        → h ≡ k
    apart h k p hw kw l r l' r' = elim (lt-or_le h k) [
      | inl lt ↦ absurd (
          omega (
            arith,
            inv.starts h hw,
            inv.starts k kw,
            start_of-suc xs h,
            start_of_mono xs (h + 1) k (omega arith),
          ))
      | inr ge ↦ elim (lt-or_le k h) [
        | inl lt ↦ absurd (
            omega (
              arith,
              inv.starts h hw,
              inv.starts k kw,
              ends-le k kw,
              start_of-suc xs k,
              start_of_mono xs (k + 1) h (omega arith),
            ))
        | inr le ↦ omega arith
      ]
    ]

    -- The loop leaves an entry where it is if it stands in its bucket, at most one behind the
    -- filled part.
    pub advance :
        (x : A)
        → get_elem? xs i ≡ some x
        → begins (slot x) ≤ i
        → i ≤ ends (slot x)
        → IsPlacing width begins ends xs (i + 1)
    advance x at l r = record {
      within = inv.within;
      starts = inv.starts;
      ordered = inv.ordered;
      filled = inv.filled;
      placed = λ p lt. elim (lt-or_le p i) [
        | inl before ↦ inv.placed p before
        | inr from ↦ here p (omega arith)
      ];
    }
      where
        here :
            (p : ℕ)
            → p ≡ i
            → holds_at (λ x. leb (begins (slot x)) p && leb p (ends (slot x))) xs p ≡ true
        here p e = ground (
          arith,
          holds_at-get_elem? (λ x. leb (begins (slot x)) p && leb p (ends (slot x))) xs p x,
        )

    -- At the end of the table every entry stands in the run of its bucket.
    pub finish : length xs ≤ i → IsIndexed xs
    finish done p x at =
        let h = slot x in
        let ok = inv.placed p (omega (arith, lt-length_of_get_elem? xs p x at)) in
        let test =
          holds_at-get_elem? (λ x. leb (begins (slot x)) p && leb p (ends (slot x))) xs p x at in
        let low : begins h ≤ p = ground arith in
        let high : p ≤ ends h = ground arith in
        let more = elim (lt-or_le p (ends h)) as (λ _. p < begins h + size_of xs h) [
          | inl lt ↦ omega (arith, ends-le h (inv.within x))
          | inr ge ↦ omega (arith, room x p at (inr ge))
        ] in
        omega (arith, inv.starts h (inv.within x), start_of-suc xs h, more)
