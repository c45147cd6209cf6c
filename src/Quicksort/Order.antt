-- ===== src/Quicksort/Order.antt =====
-- Sorted lists, and the parts of one.
use mathlib.Core.Bool.{false≢true}
use cpp_project.Prelude.{
  ℕ, zero, suc, ◌≡◌, ◌∙◌, refl, sym, ℤ, less_int, less_int_asym, less_int_trans, Bool, true, false,
  not, List, [], ◌∷◌, ◌++◌, replicate, count, count-append, count_mono, arith, Bool-cases, inl, inr,
}
use cpp_project.Quicksort.Parts.{AllPass}

-- No element is less than one before it.
abbrev pub IsSorted : List ℤ → Type 0
IsSorted [] = Unit
IsSorted (x ∷ xs) = (count (λ y. less_int y x) xs ≡ 0) × IsSorted xs

pub less_int_irrefl : (a : ℤ) → less_int a a ≡ false
less_int_irrefl a = elim (Bool-cases (less_int a a)) [ inl h ↦ less_int_asym a a h | inr h ↦ h ]

pub count_none :
    (p q : ℤ → Bool)
    → ((x : ℤ) → p x ≡ true → not (q x) ≡ true)
    → (xs : List ℤ) → AllPass q xs
    → count p xs ≡ 0
count_none p q h xs all = omega (arith, count_mono p (λ x. not (q x)) h xs)

pub not-false : (b : Bool) → b ≡ false → not b ≡ true
not-false b e = ground arith

-- What is above the pivot is not below an element that is not above the pivot.
none_below :
    (pivot x : ℤ) (highs : List ℤ)
    → less_int pivot x ≡ false
    → AllPass (λ y. less_int pivot y) highs
    → count (λ y. less_int y x) highs ≡ 0
none_below pivot x highs not_above high =
    count_none (λ y. less_int y x) (λ y. less_int pivot y)
      (λ y below. elim (Bool-cases (less_int pivot y)) [
        | inl above ↦ absurd (false≢true (sym not_above ∙ less_int_trans pivot y x above below))
        | inr e ↦ not-false (less_int pivot y) e
      ])
      highs high

none_in_copies :
    (pivot x : ℤ) (n : ℕ)
    → less_int pivot x ≡ false
    → count (λ y. less_int y x) (replicate n pivot) ≡ 0
unfolding count
none_in_copies pivot x zero e = refl
none_in_copies pivot x (suc n) e = ground (arith, none_in_copies pivot x n)

copies-IsSorted :
    (pivot : ℤ) (n : ℕ) (highs : List ℤ)
    → AllPass (λ y. less_int pivot y) highs
    → IsSorted highs
    → IsSorted (replicate n pivot ++ highs)
copies-IsSorted pivot zero highs high sorted = sorted
copies-IsSorted pivot (suc n) highs high sorted = (
  omega (
    arith,
    count-append (λ y. less_int y pivot) (replicate n pivot) highs,
    none_in_copies pivot pivot n (less_int_irrefl pivot),
    none_below pivot pivot highs (less_int_irrefl pivot) high,
  ),
  copies-IsSorted pivot n highs high sorted,
)

pub parts-IsSorted :
    (pivot : ℤ) (n : ℕ) (lows highs : List ℤ)
    → AllPass (λ y. less_int y pivot) lows
    → AllPass (λ y. less_int pivot y) highs
    → IsSorted lows
    → IsSorted highs
    → IsSorted (lows ++ (replicate n pivot ++ highs))
unfolding count
parts-IsSorted pivot n [] highs low high low_sorted high_sorted =
    copies-IsSorted pivot n highs high high_sorted
parts-IsSorted pivot n (x ∷ lows) highs low high low_sorted high_sorted =
    let below : less_int x pivot ≡ true = ground (arith, low) in
    let not_above = less_int_asym x pivot below in
    (
      omega (
        arith,
        low_sorted.0,
        count-append (λ y. less_int y x) lows (replicate n pivot ++ highs),
        count-append (λ y. less_int y x) (replicate n pivot) highs,
        none_in_copies pivot x n not_above,
        none_below pivot x highs not_above high,
      ),
      parts-IsSorted pivot n lows highs (ground (arith, low)) high low_sorted.1 high_sorted,
    )
