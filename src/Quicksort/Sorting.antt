-- ===== src/Quicksort/Sorting.antt =====
-- The whole sort.
use native.Mathlib.Nat.{add-zero, zero-add}
use cpp_project.Prelude.{
  ℕ, zero, suc, ◌+◌, ◌^◌, ◌≤◌, ◌<◌, ◌≡◌, ◌∙◌, refl, ap, sym, ℤ, pos, increment, decrement, less_int,
  ◌==ℤ◌, true, not, List, [], ◌∷◌, ◌++◌, append_assoc, append-nil, length, length-append, replicate,
  length-replicate, count, count-append, count-true, SameElements, SameElements-length, arith,
}
use cpp_project.Run.{Run, ok, ◌>>=◌}
use cpp_project.Quicksort.{partition_loop, qsort}
use cpp_project.Quicksort.Parts.{IsParted}
use cpp_project.Quicksort.Swaps.{before}
use cpp_project.Quicksort.Order.{IsSorted, parts-IsSorted}
use cpp_project.Quicksort.Pivot.{pivot_of_lem}
use cpp_project.Quicksort.Calls.{
  IsSortedRange, IsSortedRange-subst, qsort_stop, qsort_one, qsort_two, qsort_more, sort_two_lem,
  partition_range, some_copy,
}

-- A range is sorted.
abbrev Sorts : ℕ → List ℤ → List ℤ → List ℤ → Type 0
Sorts fuel pre seg post =
    IsSortedRange
      (qsort fuel (pre ++ (seg ++ post)) (pos (length pre)) (before (length pre + length seg))) pre
      seg post

increment-before : (n : ℕ) → increment (before n) ≡ pos n
increment-before zero = refl
increment-before (suc n) = refl

decrement-pos : (n : ℕ) → decrement (pos n) ≡ before n
decrement-pos zero = refl
decrement-pos (suc n) = refl

front_length :
    (pre lows copies : List ℤ)
    → length (pre ++ (lows ++ copies)) ≡ length pre + length lows + length copies
front_length pre lows copies =
    omega (arith, length-append pre (lows ++ copies), length-append lows copies)

-- The two calls behind the partition.
second_call :
    (fuel : ℕ) (pre lows copies highs post : List ℤ) (k e : ℕ)
    → k ≡ length pre + length lows + length copies
    → suc e ≡ k + length highs
    → Sorts fuel (pre ++ (lows ++ copies)) highs post
    → IsSortedRange
        (qsort fuel (pre ++ (lows ++ (copies ++ (highs ++ post)))) (pos k) (pos e))
        (pre ++ (lows ++ copies))
        highs
        post
second_call fuel pre lows copies highs post k e start_k last_e sorted =
    let front = pre ++ (lows ++ copies) in
    let size : length front ≡ k = omega (arith, front_length pre lows copies) in
    let whole : pre ++ (lows ++ (copies ++ (highs ++ post))) ≡ front ++ (highs ++ post) = sym (
      append_assoc pre (lows ++ copies) (highs ++ post)
      ∙ ap (◌++◌ pre) (append_assoc lows copies (highs ++ post))) in
    let last : pos e ≡ before (length front + length highs) =
      ap before {x = suc e} {y = length front + length highs} (omega (arith, size)) in
    IsSortedRange-subst
      (ap (λ l. qsort fuel l (pos k) (pos e)) whole
        ∙ ap (λ i. qsort fuel (front ++ (highs ++ post)) (pos i) (pos e)) (sym size)
        ∙ ap (qsort fuel (front ++ (highs ++ post)) (pos (length front))) last)
      sorted

regroup : (a b c d e : List ℤ) → (a ++ (b ++ c)) ++ (d ++ e) ≡ a ++ ((b ++ (c ++ d)) ++ e)
regroup a b c d e =
    append_assoc a (b ++ c) (d ++ e)
    ∙ ap (◌++◌ a) (
        append_assoc b c (d ++ e)
        ∙ ap (◌++◌ b) (sym (append_assoc c d e))
        ∙ sym (append_assoc b (c ++ d) e))

sort_parted :
    (fuel : ℕ) (pre seg post : List ℤ) (n : ℕ) (pivot : ℤ) (run : Run (List ℤ × ℕ × ℤ))
    → length seg ≡ suc n
    → length pre + length seg ≤ 2 ^ 30
    → 0 < count (λ z. z ==ℤ pivot) seg
    → ((pre' seg' post' : List ℤ)
        → length seg' ≤ n
        → length pre' + length seg' ≤ 2 ^ 30
        → Sorts fuel pre' seg' post')
    → IsParted pivot run pre seg post 0
    → IsSortedRange
        (run >>= λ r. qsort fuel r.0 (pos (length pre)) (decrement (pos r.1)) >>= λ nums'.
          qsort fuel nums' (increment r.2) (pos (length pre + n)))
        pre
        seg
        post
unfolding count
sort_parted fuel pre seg post n pivot run size small some_v ih parted =
    let s = length pre in
    let copies = replicate parted.n pivot in
    let some_n =
      some_copy pivot parted.lows parted.highs seg parted.n parted.low parted.high
        (parted.same (λ z. z ==ℤ pivot)) some_v in
    let lengths : length parted.lows + parted.n + length parted.highs ≡ suc n = omega (
      arith,
      parted.same (λ z. true),
      count-true parted.lows,
      count-true copies,
      count-true parted.highs,
      count-true seg,
      length-replicate parted.n pivot,
      size,
    ) in
    let first =
      ih pre parted.lows (copies ++ (parted.highs ++ post)) (omega (arith, some_n, lengths))
        (omega (arith, lengths)) in
    let first_size = SameElements-length first.sorted parted.lows first.same in
    let k = s + length parted.lows + parted.n in
    let front = pre ++ (first.sorted ++ copies) in
    let front_size = front_length pre first.sorted copies in
    let second =
      second_call fuel pre first.sorted copies parted.highs post k (s + n)
        (omega (arith, first_size, length-replicate parted.n pivot)) (omega (arith, lengths))
        (ih front parted.highs post (omega (arith, some_n, lengths))
          (omega (arith, front_size, first_size, length-replicate parted.n pivot, lengths))) in
    record {
      sorted = first.sorted ++ (copies ++ second.sorted);
      ordered =
          parts-IsSorted pivot parted.n first.sorted second.sorted
            (first.same (λ x. not (less_int x pivot)) ∙ parted.low)
            (second.same (λ x. not (less_int pivot x)) ∙ parted.high) first.ordered second.ordered;
      same = λ q. omega (
        arith,
        count-append q first.sorted (copies ++ second.sorted),
        count-append q copies second.sorted,
        first.same q,
        second.same q,
        parted.same q,
      );
      result =
          rw
            (
              parted.result,
              ◌>>=◌,
              decrement-pos (s + length parted.lows),
              first.result,
              ◌>>=◌,
              increment-before k,
              second.result,
            )
            (ap ok (regroup pre first.sorted copies second.sorted post));
    }

qsort_range :
    (fuel : ℕ) (pre seg post : List ℤ)
    → length seg < fuel
    → length pre + length seg ≤ 2 ^ 30
    → Sorts fuel pre seg post
unfolding count
qsort_range zero pre seg post enough small = absurd (omega arith)
qsort_range (suc fuel) pre [] post enough small =
    IsSortedRange-subst
      (ap (λ k. qsort (suc fuel) (pre ++ post) (pos (length pre)) (before k))
        (add-zero (length pre)))
      (record {
        sorted = [];
        ordered = tt;
        same = λ q. refl;
        result = qsort_stop fuel (pre ++ post) (length pre);
      })
qsort_range (suc fuel) pre (x ∷ []) post enough small =
    IsSortedRange-subst
      (ap (qsort (suc fuel) (pre ++ x ∷ post) (pos (length pre)))
        (ap before {x = length pre + 1} {y = suc (length pre)} (omega arith)))
      (record {
        sorted = x ∷ [];
        ordered = (refl, tt);
        same = λ q. refl;
        result = qsort_one fuel (pre ++ x ∷ post) (length pre);
      })
qsort_range (suc fuel) pre (x ∷ y ∷ []) post enough small =
    IsSortedRange-subst
      (ap (qsort (suc fuel) (pre ++ (x ∷ y ∷ post)) (pos (length pre)))
          (ap before {x = length pre + 2} {y = suc (length pre + 1)} (omega arith))
        ∙ qsort_two fuel (pre ++ (x ∷ y ∷ post)) (length pre))
      (sort_two_lem pre post x y)
qsort_range (suc fuel) pre (x ∷ y ∷ z ∷ seg) post enough small =
    let range = x ∷ y ∷ z ∷ seg in
    let n = suc (suc (length seg)) in
    let (pivot, read, some_v) = pivot_of_lem pre range post n refl small in
    IsSortedRange-subst
      (ap (qsort (suc fuel) (pre ++ (range ++ post)) (pos (length pre)))
          (ap before {x = length pre + suc n} {y = suc (length pre + n)} (omega arith))
        ∙ qsort_more fuel (pre ++ (range ++ post)) (length pre) (length pre + n) (omega arith)
        ∙ rw (read, ◌>>=◌) refl)
      (sort_parted fuel pre range post n pivot
        (partition_loop (length pre + n + 2) (pre ++ (range ++ post)) pivot (length pre)
          (length pre) (pos (length pre + n)))
        refl small some_v
        (λ pre' seg' post' le fits. qsort_range fuel pre' seg' post' (omega arith) fits)
        (partition_range pre range post pivot n refl))

-- The sort of a whole vector of at most 2 ^ 30 elements ends without a fault. The result has the
-- same elements, each as often, and no element is less than one before it.
pub qsort-IsSorted :
    (nums : List ℤ)
    → length nums ≤ 2 ^ 30
    → (sorted : List ℤ) × (qsort (suc (length nums)) nums (pos 0) (before (length nums))
        ≡ ok sorted)
      × SameElements sorted nums
      × IsSorted sorted
qsort-IsSorted nums small =
    let r = qsort_range (suc (length nums)) [] nums [] (omega arith) (omega arith) in
    (
      r.sorted,
      ap (λ l. qsort (suc (length nums)) l (pos 0) (before (length nums))) (sym (append-nil nums))
          ∙ ap (λ k. qsort (suc (length nums)) (nums ++ []) (pos 0) (before k))
              (sym (zero-add (length nums)))
          ∙ r.result
          ∙ ap ok (append-nil r.sorted),
      r.same,
      r.ordered,
    )
