-- ===== src/Quicksort/Parts.antt =====
-- What a partition makes of a range: low elements, copies of the pivot, and high elements.
use mathlib.Core.Path.{subst}
use cpp_project.Prelude.{
  ℕ, suc, ◌+◌, ◌≡◌, ◌∙◌, refl, ap, sym, ℤ, less_int, Bool, true, List, [], ◌∷◌, ◌++◌, append_assoc,
  length, length-append, replicate, count, count-append, not, arith,
}
use cpp_project.Run.{Run, ok}
use cpp_project.Quicksort.Swaps.{before}

-- All elements pass the test.
abbrev pub AllPass : (ℤ → Bool) → List ℤ → Type 0
AllPass q xs = count (λ x. not (q x)) xs ≡ 0

module _ (pivot : ℤ) where
  -- What the partition of `rest` makes, behind `front` and `m` elements that are the pivot.
  pub record IsParted (run : Run (List ℤ × ℕ × ℤ)) (front rest tail : List ℤ) (m : ℕ) : Type 0 where
    pub lows : List ℤ
    pub n : ℕ
    pub highs : List ℤ
    pub low : AllPass (λ x. less_int x pivot) lows
    pub high : AllPass (λ x. less_int pivot x) highs
    pub same :
        (q : ℤ → Bool)
        → count q lows + count q (replicate n pivot) + count q highs
          ≡ count q (replicate m pivot) + count q rest
    pub result :
        run
        ≡ ok (
          front ++ (lows ++ (replicate n pivot ++ (highs ++ tail))),
          length front + length lows,
          before (length front + length lows + n),
        )

  pub IsParted-subst :
      {run run' : Run (List ℤ × ℕ × ℤ)} {front rest tail : List ℤ} {m : ℕ}
      → run ≡ run'
      → IsParted run' front rest tail m
      → IsParted run front rest tail m
  IsParted-subst {front} {rest} {tail} {m} e parted =
      subst (λ r. IsParted r front rest tail m) (sym e) parted

  same_result :
      {l l' : List ℤ} {i i' : ℕ} (n : ℕ)
      → l ≡ l'
      → i ≡ i'
      → ◌≡◌ {A = Run (List ℤ × ℕ × ℤ)} (ok (l, i, before (i + n))) (ok (l', i', before (i' + n)))
  same_result n e f = rw (e, f)

  -- One more low element, before the others.
  pub with_low :
      {run : Run (List ℤ × ℕ × ℤ)} (front rest tail : List ℤ) (m : ℕ) (x : ℤ)
      → less_int x pivot ≡ true
      → IsParted run (front ++ x ∷ []) rest tail m
      → IsParted run front (x ∷ rest) tail m
  unfolding count
  with_low front rest tail m x low parted = record {
    lows = x ∷ parted.lows;
    n = parted.n;
    highs = parted.highs;
    low = ground (arith, parted.low);
    high = parted.high;
    same = λ q. omega (arith, parted.same q);
    result =
        parted.result
        ∙ same_result parted.n (append_assoc front (x ∷ []) _)
            (omega (arith, length-append front (x ∷ [])));
  }

  pub with_same :
      {run : Run (List ℤ × ℕ × ℤ)} (front rest tail : List ℤ) (m : ℕ)
      → IsParted run front rest tail (suc m)
      → IsParted run front (pivot ∷ rest) tail m
  unfolding count
  with_same front rest tail m parted = record {
    lows = parted.lows;
    n = parted.n;
    highs = parted.highs;
    low = parted.low;
    high = parted.high;
    same = λ q. omega (arith, parted.same q);
    result = parted.result;
  }

  pub with_high :
      {run : Run (List ℤ × ℕ × ℤ)} (front rest rest' tail : List ℤ) (m : ℕ) (x : ℤ)
      → less_int pivot x ≡ true
      → ((q : ℤ → Bool) → count q rest ≡ count q rest')
      → IsParted run front rest' (x ∷ tail) m
      → IsParted run front (x ∷ rest) tail m
  unfolding count
  with_high front rest rest' tail m x high moved parted = record {
    lows = parted.lows;
    n = parted.n;
    highs = parted.highs ++ x ∷ [];
    low = parted.low;
    high =
        ground
          (arith, parted.high, count-append (λ y. not (less_int pivot y)) parted.highs (x ∷ []));
    same = λ q. omega (arith, parted.same q, moved q, count-append q parted.highs (x ∷ []));
    result =
        parted.result
        ∙ same_result parted.n
            (ap (λ l. front ++ (parted.lows ++ (replicate parted.n pivot ++ l)))
              (sym (append_assoc parted.highs (x ∷ []) tail)))
            refl;
  }
