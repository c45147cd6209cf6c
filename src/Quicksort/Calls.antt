-- ===== src/Quicksort/Calls.antt =====
-- One call of the sort, up to its own calls.
use mathlib.Core.Path.{subst}
use native.Mathlib.Nat.{add-zero}
use cpp_project.Prelude.{
  ℕ, zero, suc, ◌+◌, ◌<◌, ◌≡◌, ◌∙◌, refl, ap, sym, ℤ, pos, increment, decrement, less_int,
  less_int_asym, ◌==ℤ◌, ==ℤ_iff, false, List, [], ◌∷◌, ◌++◌, append_assoc, length, length-append,
  replicate, lt→ltb, le→ltb, ◌==◌, ==_iff, count, SameElements, arith, Bool-cases, inl, inr,
}
use cpp_project.Run.{Run, ok, ◌>>=◌, at, at-append}
use cpp_project.Quicksort.{swap, partition_loop, sort_two, pivot_of, qsort}
use cpp_project.Quicksort.Parts.{AllPass, IsParted}
use cpp_project.Quicksort.Partition.{partition_loop_lem}
use cpp_project.Quicksort.Swaps.{before, swap_parts}
use cpp_project.Quicksort.Order.{IsSorted, less_int_irrefl, count_none, not-false}

-- The result of a sort of a range.
pub record IsSortedRange (run : Run (List ℤ)) (pre seg post : List ℤ) : Type 0 where
  pub sorted : List ℤ
  pub ordered : IsSorted sorted
  pub same : SameElements sorted seg
  pub result : run ≡ ok (pre ++ (sorted ++ post))

pub IsSortedRange-subst :
    {run run' : Run (List ℤ)} {pre seg post : List ℤ}
    → run ≡ run'
    → IsSortedRange run' pre seg post
    → IsSortedRange run pre seg post
IsSortedRange-subst {pre} {seg} {post} e r = subst (λ z. IsSortedRange z pre seg post) (sym e) r

pub qsort_stop :
    (fuel : ℕ) (nums : List ℤ) (s : ℕ) → qsort (suc fuel) nums (pos s) (before s) ≡ ok nums
unfolding qsort
qsort_stop fuel nums zero = refl
qsort_stop fuel nums (suc s) = rw (qsort, le→ltb (suc s) s (omega arith))

pub qsort_one : (fuel : ℕ) (nums : List ℤ) (s : ℕ) → qsort (suc fuel) nums (pos s) (pos s) ≡ ok nums
unfolding qsort
qsort_one fuel nums s = rw (qsort, le→ltb s s (omega arith))

pub qsort_two :
    (fuel : ℕ) (nums : List ℤ) (s : ℕ)
    → qsort (suc fuel) nums (pos s) (pos (s + 1)) ≡ sort_two nums s (s + 1)
unfolding qsort
qsort_two fuel nums s = rw (qsort, lt→ltb s (s + 1) (omega arith), (==_iff (s + 1) (s + 1)).1 refl)

pub qsort_more :
    (fuel : ℕ) (nums : List ℤ) (s e : ℕ)
    → s + 1 < e
    → qsort (suc fuel) nums (pos s) (pos e) ≡ (
        pivot_of nums s e >>= λ pivot. partition_loop (e + 2) nums pivot s s (pos e) >>= λ r.
        qsort fuel r.0 (pos s) (decrement (pos r.1)) >>= λ nums'.
        qsort fuel nums' (increment r.2) (pos e))
unfolding qsort
qsort_more fuel nums s e lt =
    let other : (s + 1 == e) ≡ false = ground arith in rw (qsort, lt→ltb s e (omega arith), other)

pub sort_two_lem :
    (pre post : List ℤ) (x y : ℤ)
    → IsSortedRange
        (sort_two (pre ++ (x ∷ y ∷ post)) (length pre) (length pre + 1))
        pre
        (x ∷ y ∷ [])
        post
unfolding sort_two count
sort_two_lem pre post x y =
    let place : length pre + 1 ≡ length (pre ++ x ∷ []) =
      omega (arith, length-append pre (x ∷ [])) in
    let at_y : at (pre ++ (x ∷ y ∷ post)) (length pre + 1) ≡ ok y =
      ap (at (pre ++ (x ∷ y ∷ post))) place
      ∙ ap (λ l. at l (length (pre ++ x ∷ []))) (sym (append_assoc pre (x ∷ []) (y ∷ post)))
      ∙ at-append (pre ++ x ∷ []) post y in
    elim (Bool-cases (less_int y x)) [
      | inl greater ↦ record {
        sorted = y ∷ x ∷ [];
        ordered = (ground (arith, less_int_asym y x greater), (refl, tt));
        same = λ q. omega arith;
        result =
            rw (sort_two, at-append pre (y ∷ post) x, at_y, ◌>>=◌, greater)
              (ap (swap (pre ++ (x ∷ y ∷ post)) (length pre)) place ∙ swap_parts pre [] post x y);
      }
      | inr ordered ↦ record {
        sorted = x ∷ y ∷ [];
        ordered = (ground (arith, ordered), (refl, tt));
        same = λ q. refl;
        result = rw (sort_two, at-append pre (y ∷ post) x, at_y, ◌>>=◌, ordered);
      }
    ]

-- The partition of a range, as the sort calls it.
pub partition_range :
    (pre seg post : List ℤ) (pivot : ℤ) (n : ℕ)
    → length seg ≡ suc n
    → IsParted pivot
        (partition_loop
          (length pre + n + 2)
          (pre ++ (seg ++ post))
          pivot
          (length pre)
          (length pre)
          (pos (length pre + n)))
        pre
        seg
        post
        0
partition_range pre seg post pivot n size =
    let last : before (length pre + 0 + length seg) ≡ pos (length pre + n) =
      ap before {y = suc (length pre + n)} (omega (arith, size)) in
    subst
      (λ j.
        IsParted pivot
          (partition_loop (length pre + n + 2) (pre ++ (seg ++ post)) pivot (length pre) j
            (pos (length pre + n)))
          pre seg post 0)
      (add-zero (length pre))
      (subst
        (λ k.
          IsParted pivot
            (partition_loop (length pre + n + 2) (pre ++ (seg ++ post)) pivot (length pre)
              (length pre + 0) k)
            pre seg post 0)
        last (partition_loop_lem pivot (length pre + n + 2) pre seg post 0 (omega (arith, size))))

-- The pivot is among the elements that are equal to it.
pub some_copy :
    (pivot : ℤ) (lows highs seg : List ℤ) (n : ℕ)
    → AllPass (λ x. less_int x pivot) lows
    → AllPass (λ x. less_int pivot x) highs
    → count (λ z. z ==ℤ pivot) lows
        + count (λ z. z ==ℤ pivot) (replicate n pivot)
        + count (λ z. z ==ℤ pivot) highs
      ≡ 0 + count (λ z. z ==ℤ pivot) seg
    → 0 < count (λ z. z ==ℤ pivot) seg
    → 0 < n
unfolding count
some_copy pivot lows highs seg (suc n) low high same some_v = omega arith
some_copy pivot lows highs seg zero low high same some_v = absurd (
    omega (
      arith,
      count_none (λ z. z ==ℤ pivot) (λ x. less_int x pivot)
          (λ x e. not-false _ (rw ((==ℤ_iff x pivot).0 e) (less_int_irrefl pivot))) lows low,
      count_none (λ z. z ==ℤ pivot) (λ x. less_int pivot x)
          (λ x e. not-false _ (rw ((==ℤ_iff x pivot).0 e) (less_int_irrefl pivot))) highs high,
    ))
