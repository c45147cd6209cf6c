-- ===== src/Prelude/Counts.antt =====
-- How many elements of a list pass a test. Lists that agree on every test hold the same elements,
-- each as often: this is how the development says that a list is a rearrangement of another.
use Prim.Native.Nat.{ℕ, zero, suc, ◌+◌, ◌<◌, ◌≤◌}
use mathlib.Core.Path.{◌≡◌, refl}
use mathlib.Core.Logic.{◌⊎◌, inl, inr}
use mathlib.Core.List.{List, [], ◌∷◌, ◌++◌}
use mathlib.Core.Option.{some}
use mathlib.Core.Bool.{Bool, true, false}
use native.Mathlib.Nat.{eq-or-lt_of_le, le_refl}
use native.Mathlib.Omega.{arith}
use cpp_project.Prelude.Tests.{Bool-cases}
use cpp_project.Prelude.Lists.{length, get_elem?, set, holds_at, get_elem?-set}

abbrev pub to_nat : Bool → ℕ
to_nat true = 1
to_nat false = 0

module _ {ℓ} {A : Type ℓ} where
  unfoldable pub count : (A → Bool) → List A → ℕ
  count q [] = 0
  count q (x ∷ xs) = to_nat (q x) + count q xs

  -- The same elements, each as often.
  abbrev pub SameElements : List A → List A → Type ℓ
  SameElements xs ys = (q : A → Bool) → count q xs ≡ count q ys

module _ {ℓ} {A : Type ℓ} where
  pub count-le-length : (q : A → Bool) (xs : List A) → count q xs ≤ length xs
  unfolding count
  count-le-length q [] = omega arith
  count-le-length q (x ∷ xs) = ground (arith, count-le-length q xs)

  pub count-append : (q : A → Bool) (xs ys : List A) → count q (xs ++ ys) ≡ count q xs + count q ys
  unfolding count
  count-append q [] ys = omega arith
  count-append q (x ∷ xs) ys = omega (arith, count-append q xs ys)

  pub count-true : (xs : List A) → count (λ _. true) xs ≡ length xs
  unfolding count
  count-true [] = refl
  count-true (x ∷ xs) = omega (arith, count-true xs)

  pub SameElements-length : (xs ys : List A) → SameElements xs ys → length xs ≡ length ys
  SameElements-length xs ys h = omega (arith, h (λ _. true), count-true xs, count-true ys)

  -- A test that is the union of two exclusive tests.
  pub count-split :
      (p q r : A → Bool)
      → ((x : A) → to_nat (p x) ≡ to_nat (q x) + to_nat (r x))
      → (xs : List A) → count p xs ≡ count q xs + count r xs
  unfolding count
  count-split p q r h [] = omega arith
  count-split p q r h (x ∷ xs) = omega (arith, h x, count-split p q r h xs)

  pub count-congr :
      (p q : A → Bool) → ((x : A) → p x ≡ q x) → (xs : List A) → count p xs ≡ count q xs
  unfolding count
  count-congr p q h [] = refl
  count-congr p q h (x ∷ xs) = ground (arith, h x, count-congr p q h xs)

  pub count-pos : (q : A → Bool) (xs : List A) (i : ℕ) → holds_at q xs i ≡ true → 0 < count q xs
  unfolding count
  count-pos q [] i h = cc
  count-pos q (x ∷ xs) zero h = ground arith
  count-pos q (x ∷ xs) (suc i) h = omega (arith, count-pos q xs i h)

  pub holds_at_of_count :
      (q : A → Bool) (xs : List A) → 0 < count q xs → (i : ℕ) × (holds_at q xs i ≡ true)
  unfolding count
  holds_at_of_count q [] h = absurd (omega arith)
  holds_at_of_count q (x ∷ xs) h = elim (Bool-cases (q x)) [
    | inl e ↦ (0, e)
    | inr e ↦ let (i, p) = holds_at_of_count q xs (ground arith) in (suc i, p)
  ]

  pub count-set :
      (q : A → Bool) (xs : List A) (i : ℕ) (x v : A)
      → get_elem? xs i ≡ some x
      → count q (set xs i v) + to_nat (q x) ≡ count q xs + to_nat (q v)
  unfolding count
  count-set q [] i x v h = cc
  count-set q (y ∷ xs) zero x v h = ground arith
  count-set q (y ∷ xs) (suc i) x v h = omega (arith, count-set q xs i x v h)

  -- Exchanging two elements.
  pub count-swap :
      (q : A → Bool) (xs : List A) (i j : ℕ) (x y : A)
      → get_elem? xs i ≡ some x
      → get_elem? xs j ≡ some y
      → i < length xs
      → count q (set (set xs i y) j x) ≡ count q xs
  count-swap q xs i j x y hx hy bound = omega (
    arith,
    count-set q xs i x y hx,
    count-set q (set xs i y) j y x (ground (arith, get_elem?-set xs i j y bound)),
  )

  -- A test that passes less often.
  pub count_mono :
      (p q : A → Bool)
      → ((x : A) → p x ≡ true → q x ≡ true)
      → (xs : List A) → count p xs ≤ count q xs
  unfolding count
  count_mono p q h [] = omega arith
  count_mono p q h (x ∷ xs) = ground (arith, h x, count_mono p q h xs)

  pub holds_at_mono :
      (p q : A → Bool)
      → ((x : A) → p x ≡ true → q x ≡ true)
      → (xs : List A) (i : ℕ) → holds_at p xs i ≡ true
      → holds_at q xs i ≡ true
  holds_at_mono p q h [] i e = e
  holds_at_mono p q h (x ∷ xs) zero e = h x e
  holds_at_mono p q h (x ∷ xs) (suc i) e = holds_at_mono p q h xs i e

  -- A run of positions that pass takes that many elements.
  pub count_run :
      (q : A → Bool) (xs : List A) (b e : ℕ)
      → b ≤ e
      → ((p : ℕ) → b ≤ p → p < e → holds_at q xs p ≡ true)
      → e ≤ b + count q xs
  unfolding count
  count_run q [] b e le h = elim (eq-or-lt_of_le le) [
    | inl eq ↦ omega arith
    | inr lt ↦ cc (h b (le_refl b) lt)
  ]
  count_run q (x ∷ xs) (suc b) (suc e) le h =
      omega
        (arith, count_run q xs b e (omega arith) (λ p l r. h (suc p) (omega arith) (omega arith)))
  count_run q (x ∷ xs) (suc b) zero le h = omega arith
  count_run q (x ∷ xs) zero zero le h = omega arith
  count_run q (x ∷ xs) zero (suc e) le h =
      let tail =
        count_run q xs 0 e (omega arith) (λ p l r. h (suc p) (omega arith) (omega arith)) in
      ground (arith, h 0 (omega arith) (omega arith), tail)

  -- One more element that passes, outside of the run.
  pub count_run_and_one :
      (q : A → Bool) (xs : List A) (b e i : ℕ)
      → b ≤ e
      → ((p : ℕ) → b ≤ p → p < e → holds_at q xs p ≡ true)
      → holds_at q xs i ≡ true
      → (i < b) ⊎ (e ≤ i)
      → e < b + count q xs
  unfolding count
  count_run_and_one q [] b e i le h at out = cc
  count_run_and_one q (x ∷ xs) (suc b) (suc e) zero le h at out =
      let tail =
        count_run q xs b e (omega arith) (λ p l r. h (suc p) (omega arith) (omega arith)) in
      ground (arith, tail)
  count_run_and_one q (x ∷ xs) (suc b) (suc e) (suc i) le h at out = omega (
    arith,
    count_run_and_one q xs b e i (omega arith) (λ p l r. h (suc p) (omega arith) (omega arith)) at
        (omega arith),
  )
  count_run_and_one q (x ∷ xs) (suc b) zero i le h at out = absurd (omega arith)
  count_run_and_one q (x ∷ xs) zero zero i le h at out = omega (arith, count-pos q (x ∷ xs) i at)
  count_run_and_one q (x ∷ xs) zero (suc e) zero le h at out = absurd (omega arith)
  count_run_and_one q (x ∷ xs) zero (suc e) (suc i) le h at out =
      let tail =
        count_run_and_one q xs 0 e i (omega arith) (λ p l r. h (suc p) (omega arith) (omega arith))
          at (omega arith) in
      ground (arith, h 0 (omega arith) (omega arith), tail)
