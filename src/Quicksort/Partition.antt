-- ===== src/Quicksort/Partition.antt =====
-- The partition, on a vector that is written as its parts.
use mathlib.Core.Path.{subst}
use native.Mathlib.Nat.{add-zero}
use cpp_project.Prelude.{
  ℕ, zero, suc, ◌+◌, ◌<◌, ◌≡◌, ◌∙◌, refl, ap, sym, ℤ, less_int, less_int_total, true, false, List,
  [], ◌∷◌, ◌++◌, append_assoc, length, length-append, replicate, count, count-append, arith,
  Bool-cases, inl, inr,
}
use cpp_project.Run.{ok, ◌>>=◌}
use cpp_project.Quicksort.{swap, partition_loop}
use cpp_project.Quicksort.Swaps.{
  before, snoc_view, replicate-snoc, at_rest, swap_low, swap_high, swap_only,
}
use cpp_project.Quicksort.Parts.{IsParted, IsParted-subst, with_low, with_same, with_high}
use cpp_project.Quicksort.Steps.{step_low, step_same, step_high, step_stop}

module _ (pivot : ℤ) where
  -- The counts of the loop, for one round less.
  shifted :
      (fuel : ℕ) (nums : List ℤ) (front : List ℤ) (x : ℤ) (m n : ℕ)
      → partition_loop fuel nums pivot
          (length front + 1)
          (length front + m + 1)
          (before (length front + m + suc n))
        ≡ partition_loop fuel nums pivot
            (length (front ++ x ∷ []))
            (length (front ++ x ∷ []) + m)
            (before (length (front ++ x ∷ []) + m + n))
  shifted fuel nums front x m n =
      let size = length-append front (x ∷ []) in
      let e₁ : length front + 1 ≡ length (front ++ x ∷ []) = omega (arith, size) in
      let e₂ : length front + m + 1 ≡ length (front ++ x ∷ []) + m = omega (arith, size) in
      let e₃ : length front + m + suc n ≡ length (front ++ x ∷ []) + m + n = omega (arith, size) in
      rw (e₁, e₂, e₃)

  skipped :
      (fuel : ℕ) (front rest : List ℤ) (m n : ℕ)
      → partition_loop fuel
          (front ++ (replicate m pivot ++ pivot ∷ rest))
          pivot
          (length front)
          (length front + m + 1)
          (before (length front + m + suc n))
        ≡ partition_loop fuel
            (front ++ (replicate (suc m) pivot ++ rest))
            pivot
            (length front)
            (length front + suc m)
            (before (length front + suc m + n))
  skipped fuel front rest m n =
      let e₂ : length front + m + 1 ≡ length front + suc m = omega arith in
      let e₃ : length front + m + suc n ≡ length front + suc m + n = omega arith in
      rw (e₂, e₃, replicate-snoc pivot m rest)

  -- The loop on a range, as the theorem has it.
  abbrev Parts : ℕ → List ℤ → List ℤ → List ℤ → ℕ → Type 0
  Parts fuel front rest tail m =
      IsParted pivot
        (partition_loop fuel (front ++ (replicate m pivot ++ (rest ++ tail))) pivot (length front)
          (length front + m) (before (length front + m + length rest)))
        front rest tail m

  high_swapped :
      (fuel : ℕ) (front rest r tail : List ℤ) (m : ℕ) (x y : ℤ)
      → less_int x pivot ≡ false
      → less_int pivot x ≡ true
      → rest ≡ r ++ y ∷ []
      → Parts fuel front (y ∷ r) (x ∷ tail) m
      → Parts (suc fuel) front (x ∷ rest) tail m
  unfolding count
  high_swapped fuel front rest r tail m x y not_low high e parted =
      let size : length rest ≡ suc (length r) =
        omega (arith, ap length e, length-append r (y ∷ [])) in
      let whole : rest ++ tail ≡ r ++ y ∷ tail =
        ap (λ l. l ++ tail) e ∙ append_assoc r (y ∷ []) tail in
      let next = λ (nums' : List ℤ).
        partition_loop fuel nums' pivot (length front) (length front + m)
          (before (length front + m + suc (length r))) in
      IsParted-subst pivot
        (step_high pivot fuel (front ++ (replicate m pivot ++ x ∷ (rest ++ tail))) (length front)
            (length front + m) (length rest) x (at_rest pivot front (rest ++ tail) m x) not_low high
          ∙ ap
              (λ n.
                swap (front ++ (replicate m pivot ++ x ∷ (rest ++ tail))) (length front + m)
                  (length front + m + n)
                >>= λ nums'.
                    partition_loop fuel nums' pivot (length front) (length front + m)
                      (before (length front + m + n)))
              size
          ∙ ap
              (λ l.
                swap (front ++ (replicate m pivot ++ x ∷ l)) (length front + m)
                  (length front + m + suc (length r))
                >>= next)
              whole
          ∙ ap (λ r'. r' >>= next) (swap_high pivot front r tail m x y))
        (with_high pivot front rest (y ∷ r) tail m x high
          (λ q. omega (arith, ap (count q) e, count-append q r (y ∷ []))) parted)

  high_case :
      (fuel : ℕ) (front rest tail : List ℤ) (m : ℕ) (x : ℤ)
      → less_int x pivot ≡ false
      → less_int pivot x ≡ true
      → ((rest' tail' : List ℤ) → length rest' < fuel → Parts fuel front rest' tail' m)
      → length rest < fuel
      → Parts (suc fuel) front (x ∷ rest) tail m
  high_case fuel front [] tail m x not_low high ih enough =
      IsParted-subst pivot
        (step_high pivot fuel (front ++ (replicate m pivot ++ x ∷ tail)) (length front)
            (length front + m) 0 x (at_rest pivot front tail m x) not_low high
          ∙ ap
              (λ r'. r' >>= λ nums'.
                partition_loop fuel nums' pivot (length front) (length front + m)
                  (before (length front + m + 0)))
              (swap_only pivot front tail m x))
        (with_high pivot front [] [] tail m x high (λ q. refl) (ih [] (x ∷ tail) enough))
  high_case fuel front (z ∷ rest) tail m x not_low high ih enough =
      let (r, y, e) = snoc_view z rest in
      high_swapped fuel front (z ∷ rest) r tail m x y not_low high e
        (ih (y ∷ r) (x ∷ tail) (omega (arith, ap length e, length-append r (y ∷ []))))

  pub partition_loop_lem :
      (fuel : ℕ) (front rest tail : List ℤ) (m : ℕ)
      → length rest < fuel
      → IsParted pivot
          (partition_loop fuel
            (front ++ (replicate m pivot ++ (rest ++ tail)))
            pivot
            (length front)
            (length front + m)
            (before (length front + m + length rest)))
          front
          rest
          tail
          m
  unfolding count
  partition_loop_lem zero front rest tail m enough = absurd (omega arith)
  partition_loop_lem (suc fuel) front [] tail m enough = record {
    lows = [];
    n = m;
    highs = [];
    low = refl;
    high = refl;
    same = λ q. omega arith;
    result =
        ap
          (λ k.
            partition_loop (suc fuel) (front ++ (replicate m pivot ++ tail)) pivot (length front)
              (length front + m) (before k))
          (add-zero (length front + m))
        ∙ step_stop pivot fuel (front ++ (replicate m pivot ++ tail)) (length front)
            (length front + m)
        ∙ ap (λ i. ok (front ++ (replicate m pivot ++ tail), i, before (i + m)))
            (sym (add-zero (length front)));
  }
  partition_loop_lem (suc fuel) front (x ∷ rest) tail m enough =
      let nums = front ++ (replicate m pivot ++ x ∷ (rest ++ tail)) in
      let at_x = at_rest pivot front (rest ++ tail) m x in
      elim (Bool-cases (less_int x pivot)) [
        | inl low ↦
            IsParted-subst pivot
              (step_low pivot fuel nums (length front) (length front + m) (length rest) x at_x low
                ∙ ap
                    (λ r. r >>= λ nums'.
                      partition_loop fuel nums' pivot (length front + 1) (length front + m + 1)
                        (before (length front + m + suc (length rest))))
                    (swap_low pivot front (rest ++ tail) m x)
                ∙ shifted fuel ((front ++ x ∷ []) ++ (replicate m pivot ++ (rest ++ tail))) front x
                    m (length rest))
              (with_low pivot front rest tail m x low
                (partition_loop_lem fuel (front ++ x ∷ []) rest tail m (omega arith)))
        | inr not_low ↦ elim (Bool-cases (less_int pivot x)) [
          | inl high ↦
              high_case fuel front rest tail m x not_low high
                (λ rest' tail' lt. partition_loop_lem fuel front rest' tail' m lt) (omega arith)
          | inr not_high ↦
              let e = less_int_total x pivot not_low not_high in
              IsParted-subst pivot
                (step_same pivot fuel nums (length front) (length front + m) (length rest) x at_x
                    not_low not_high
                  ∙ ap
                      (λ z.
                        partition_loop fuel (front ++ (replicate m pivot ++ z ∷ (rest ++ tail)))
                          pivot (length front) (length front + m + 1)
                          (before (length front + m + suc (length rest))))
                      e
                  ∙ skipped fuel front (rest ++ tail) m (length rest))
                (subst
                  (λ z.
                    IsParted pivot
                      (partition_loop fuel (front ++ (replicate (suc m) pivot ++ (rest ++ tail)))
                        pivot (length front) (length front + suc m)
                        (before (length front + suc m + length rest)))
                      front (z ∷ rest) tail m)
                  (sym e)
                  (with_same pivot front rest tail m
                    (partition_loop_lem fuel front rest tail (suc m) (omega arith))))
        ]
      ]
