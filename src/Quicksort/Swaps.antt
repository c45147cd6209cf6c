-- ===== src/Quicksort/Swaps.antt =====
-- Exchanges of elements in a vector that is written as its parts.
use native.Mathlib.Nat.{add-zero}
use cpp_project.Prelude.{
  ℕ, zero, suc, ◌+◌, ◌≡◌, ◌∙◌, refl, ap, sym, ℤ, pos, minus_one, decrement, List, [], ◌∷◌, ◌++◌,
  append_assoc, length, length-append, replicate, length-replicate, arith,
}
use cpp_project.Run.{ok, ◌>>=◌, at, put, at-append, put-append}
use cpp_project.Quicksort.{swap}

swap_same :
    (xs ys : List ℤ) (x : ℤ) → swap (xs ++ x ∷ ys) (length xs) (length xs) ≡ ok (xs ++ x ∷ ys)
unfolding swap
swap_same xs ys x = rw (at-append xs ys x, ◌>>=◌, put-append xs ys x x) (put-append xs ys x x)

pub swap_parts :
    (xs ys zs : List ℤ) (x y : ℤ)
    → swap (xs ++ x ∷ (ys ++ y ∷ zs)) (length xs) (length (xs ++ x ∷ ys))
      ≡ ok (xs ++ y ∷ (ys ++ x ∷ zs))
unfolding swap
swap_parts xs ys zs x y =
    let n = length (xs ++ x ∷ ys) in
    let n_same : n ≡ length (xs ++ y ∷ ys) =
      omega (arith, length-append xs (x ∷ ys), length-append xs (y ∷ ys)) in
    let second : at (xs ++ x ∷ (ys ++ y ∷ zs)) n ≡ ok y =
      ap (λ l. at l n) (sym (append_assoc xs (x ∷ ys) (y ∷ zs))) ∙ at-append (xs ++ x ∷ ys) zs y in
    let last : put (xs ++ y ∷ (ys ++ y ∷ zs)) n x ≡ ok (xs ++ y ∷ (ys ++ x ∷ zs)) =
      ap (λ l. put l n x) (sym (append_assoc xs (y ∷ ys) (y ∷ zs)))
      ∙ ap (λ m. put ((xs ++ y ∷ ys) ++ y ∷ zs) m x) n_same
      ∙ put-append (xs ++ y ∷ ys) zs y x
      ∙ ap ok (append_assoc xs (y ∷ ys) (x ∷ zs)) in
    rw (at-append xs (ys ++ y ∷ zs) x, ◌>>=◌, second, put-append xs (ys ++ y ∷ zs) x y) last

-- The last element, and what is before it.
pub snoc_view : (x : ℤ) (r : List ℤ) → (r' : List ℤ) × (y : ℤ) × (x ∷ r ≡ r' ++ y ∷ [])
snoc_view x [] = ([], x, refl)
snoc_view x (z ∷ r) = let (r', y, e) = snoc_view z r in (x ∷ r', y, ap (◌∷◌ x) e)

abbrev pub before : ℕ → ℤ
before zero = minus_one
before (suc n) = pos n

decrement-before : (n : ℕ) → decrement (before (suc n)) ≡ before n
decrement-before zero = refl
decrement-before (suc n) = refl

module _ (pivot : ℤ) where
  pub replicate-snoc :
      (m : ℕ) (xs : List ℤ) → replicate m pivot ++ pivot ∷ xs ≡ pivot ∷ (replicate m pivot ++ xs)
  replicate-snoc zero xs = refl
  replicate-snoc (suc m) xs = ap (◌∷◌ pivot) (replicate-snoc m xs)

  pub front_length :
      (front : List ℤ) (m : ℕ) → length front + m ≡ length (front ++ replicate m pivot)
  front_length front m =
      omega (arith, length-append front (replicate m pivot), length-replicate m pivot)

  pub at_rest :
      (front rest : List ℤ) (m : ℕ) (x : ℤ)
      → at (front ++ (replicate m pivot ++ x ∷ rest)) (length front + m) ≡ ok x
  at_rest front rest m x =
      ap (λ k. at (front ++ (replicate m pivot ++ x ∷ rest)) k) (front_length front m)
      ∙ ap (λ l. at l (length (front ++ replicate m pivot)))
          (sym (append_assoc front (replicate m pivot) (x ∷ rest)))
      ∙ at-append (front ++ replicate m pivot) rest x

  -- A low element changes places with the first that is the pivot.
  pub swap_low :
      (front rest : List ℤ) (m : ℕ) (x : ℤ)
      → swap (front ++ (replicate m pivot ++ x ∷ rest)) (length front) (length front + m)
        ≡ ok ((front ++ x ∷ []) ++ (replicate m pivot ++ rest))
  swap_low front rest zero x =
      ap (swap (front ++ x ∷ rest) (length front)) (add-zero (length front))
      ∙ swap_same front rest x
      ∙ ap ok (sym (append_assoc front (x ∷ []) rest))
  swap_low front rest (suc m) x =
      ap (swap (front ++ pivot ∷ (replicate m pivot ++ x ∷ rest)) (length front))
        (front_length front (suc m))
      ∙ swap_parts front (replicate m pivot) rest pivot x
      ∙ ap (λ l. ok (front ++ x ∷ l)) (replicate-snoc m rest)
      ∙ ap ok (sym (append_assoc front (x ∷ []) (pivot ∷ (replicate m pivot ++ rest))))

  -- A high element changes places with the last that is left.
  pub swap_high :
      (front rest tail : List ℤ) (m : ℕ) (x y : ℤ)
      → swap
          (front ++ (replicate m pivot ++ x ∷ (rest ++ y ∷ tail)))
          (length front + m)
          (length front + m + suc (length rest))
        ≡ ok (front ++ (replicate m pivot ++ y ∷ (rest ++ x ∷ tail)))
  swap_high front rest tail m x y =
      let base = front ++ replicate m pivot in
      let whole = λ (l : List ℤ). append_assoc front (replicate m pivot) l in
      let here = front_length front m in
      let there : length front + m + suc (length rest) ≡ length (base ++ x ∷ rest) =
        omega (arith, here, length-append base (x ∷ rest)) in
      ap (λ l. swap l (length front + m) (length front + m + suc (length rest)))
        (sym (whole (x ∷ (rest ++ y ∷ tail))))
      ∙ ap (λ a. swap (base ++ x ∷ (rest ++ y ∷ tail)) a (length front + m + suc (length rest)))
          here
      ∙ ap (swap (base ++ x ∷ (rest ++ y ∷ tail)) (length base)) there
      ∙ swap_parts base rest tail x y
      ∙ ap ok (whole (y ∷ (rest ++ x ∷ tail)))

  pub swap_only :
      (front tail : List ℤ) (m : ℕ) (x : ℤ)
      → swap (front ++ (replicate m pivot ++ x ∷ tail)) (length front + m) (length front + m + 0)
        ≡ ok (front ++ (replicate m pivot ++ x ∷ tail))
  swap_only front tail m x =
      let base = front ++ replicate m pivot in
      let whole = append_assoc front (replicate m pivot) (x ∷ tail) in
      let here = front_length front m in
      ap (λ l. swap l (length front + m) (length front + m + 0)) (sym whole)
      ∙ ap (swap (base ++ x ∷ tail) (length front + m)) (add-zero (length front + m))
      ∙ ap (λ a. swap (base ++ x ∷ tail) a a) here
      ∙ swap_same base tail x
      ∙ ap ok whole
