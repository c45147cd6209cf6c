-- ===== src/Buckets/Rounds.antt =====
-- How many rounds the placing loop makes: each either moves on by one position, or fills one more
-- place, and there are as many places as entries.
use cpp_project.Prelude.{
  ℕ, zero, suc, ◌+◌, ◌-◌, ◌≤◌, ◌<◌, ◌≡◌, List, arith, ltb, ◌==◌, if◌then◌else◌, length, count, [],
  ◌∷◌, count-le-length, Bool-cases, inl, inr, refl, ap,
}
use native.Mathlib.Numerals.{add-one}
use cpp_project.Buckets.{IsPlacing, start_of, size_of, start_of-suc, ends-le}

sum_below : ℕ → (ℕ → ℕ) → ℕ
sum_below zero f = 0
sum_below (suc n) f = sum_below n f + f n

sum_below-le : (n : ℕ) (f g : ℕ → ℕ) → ((k : ℕ) → k < n → f k ≤ g k) → sum_below n f ≤ sum_below n g
unfolding sum_below
sum_below-le zero f g h = omega arith
sum_below-le (suc n) f g h =
    omega (arith, sum_below-le n f g (λ k lt. h k (omega arith)), h n (omega arith))

sum_below_congr :
    (n : ℕ) (f g : ℕ → ℕ) → ((k : ℕ) → k < n → f k ≡ g k) → sum_below n f ≡ sum_below n g
unfolding sum_below
sum_below_congr zero f g h = refl
sum_below_congr (suc n) f g h =
    omega (arith, sum_below_congr n f g (λ k lt. h k (omega arith)), h n (omega arith))

-- One term grows by one.
sum_below_bump :
    (n h : ℕ) (f g : ℕ → ℕ)
    → h < n
    → ((k : ℕ) → k < n → g k ≡ (if h == k then f k + 1 else f k))
    → sum_below n g ≡ sum_below n f + 1
unfolding sum_below
sum_below_bump zero h f g lt e = absurd (omega arith)
sum_below_bump (suc n) h f g lt e = elim (Bool-cases (h == n)) [
  | inl last ↦
      ground
        (arith, e n (omega arith), sum_below_congr n g f (λ k l. ground (arith, e k (omega arith))))
  | inr before ↦
      ground
        (arith, e n (omega arith), sum_below_bump n h f g (ground arith) (λ k l. e k (omega arith)))
]

module _ {ℓ} {A : Type ℓ} (slot : A → ℕ) where
  pub start_of-zero : (xs : List A) → start_of slot xs 0 ≡ 0
  unfolding count
  start_of-zero [] = refl
  start_of-zero (x ∷ xs) = ground (arith, start_of-zero xs)

  sum_sizes : (width : ℕ) (xs : List A) → sum_below width (size_of slot xs) ≡ start_of slot xs width
  unfolding sum_below
  sum_sizes zero xs = omega (arith, start_of-zero xs)
  sum_sizes (suc n) xs =
      omega (arith, sum_sizes n xs, start_of-suc slot xs n, ap (start_of slot xs) (add-one n))

  -- How many places are filled.
  pub filled_places : ℕ → (ℕ → ℕ) → (ℕ → ℕ) → ℕ
  filled_places width begins ends = sum_below width (λ h. ends h - begins h)

  pub filled_places-le :
      {width : ℕ} {begins ends : ℕ → ℕ} {xs : List A} {i : ℕ}
      → IsPlacing slot width begins ends xs i
      → filled_places width begins ends ≤ length xs
  unfolding filled_places
  filled_places-le {width} {begins} {ends} {xs} inv = omega (
    arith,
    sum_below-le width (λ h. ends h - begins h) (size_of slot xs)
        (λ h lt. omega (arith, ends-le slot inv h lt)),
    sum_sizes width xs,
    count-le-length (λ x. ltb (slot x) width) xs,
  )

  pub filled_places-bump :
      {width : ℕ} {begins ends : ℕ → ℕ} (ends' : ℕ → ℕ) {xs : List A} {i : ℕ} (h : ℕ)
      → IsPlacing slot width begins ends xs i
      → h < width
      → ((k : ℕ) → ends' k ≡ (if h == k then ends k + 1 else ends k))
      → filled_places width begins ends' ≡ filled_places width begins ends + 1
  unfolding filled_places
  filled_places-bump {width} {begins} {ends} ends' h inv lt bump =
      sum_below_bump width h (λ k. ends k - begins k) (λ k. ends' k - begins k) lt
        (λ k l. ground (arith, bump k, inv.ordered k l))
