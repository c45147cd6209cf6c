-- ===== src/Quicksort/Pivot.antt =====
-- The pivot is an element of the range.
use native.Mathlib.Nat.{zero-add}
use cpp_project.Prelude.{
  ℕ, zero, suc, ◌+◌, ◌/◌, ◌<◌, ◌≤◌, ◌^◌, ◌≡◌, ◌∙◌, refl, ap, ℤ, ◌==ℤ◌, ==ℤ_iff, Bool, true, false,
  List, [], ◌∷◌, ◌++◌, length, ◌-◌, count, if◌then◌else◌, arith,
}
use cpp_project.Run.{ok, ◌>>=◌, at, add_int-ok}
use cpp_project.Quicksort.{max_int, min_int, pivot_of}

at_prefix : (pre l : List ℤ) (d : ℕ) → at (pre ++ l) (length pre + d) ≡ at l d
unfolding at
at_prefix [] l d = ap (at l) (zero-add d)
at_prefix (x ∷ pre) l d =
    let shift : suc (length pre) + d ≡ suc (length pre + d) = omega arith in
    rw shift (at_prefix pre l d)

in_seg :
    (seg post : List ℤ) (d : ℕ)
    → d < length seg
    → (v : ℤ) × (at (seg ++ post) d ≡ ok v) × (0 < count (λ z. z ==ℤ v) seg)
unfolding at count
in_seg [] post d lt = absurd (omega arith)
in_seg (x ∷ seg) post zero lt = (x, refl, ground (arith, (==ℤ_iff x x).1 refl))
in_seg (x ∷ seg) post (suc d) lt =
    let (v, e, some_v) = in_seg seg post d (omega arith) in (v, e, omega arith)

-- The element at a place of the range, which occurs in it.
in_range :
    (pre seg post : List ℤ) (p d : ℕ)
    → p ≡ length pre + d
    → d < length seg
    → (v : ℤ) × (at (pre ++ (seg ++ post)) p ≡ ok v) × (0 < count (λ z. z ==ℤ v) seg)
in_range pre seg post p d place lt =
    let (v, e, some_v) = in_seg seg post d lt in
    (v, ap (at (pre ++ (seg ++ post))) place ∙ at_prefix pre (seg ++ post) d ∙ e, some_v)

choose : (P : ℤ → Type 0) (b : Bool) (x y : ℤ) → P x → P y → P (if b then x else y)
choose P true x y px py = px
choose P false x y px py = py

pivot_cases : (P : ℤ → Type 0) (a b : ℤ) → P a → P b → P (min_int (max_int a b) (max_int b a))
pivot_cases P a b pa pb =
    choose P _ (max_int b a) (max_int a b) (choose P _ a b pa pb) (choose P _ b a pb pa)

-- The pivot of a range that ends within 2 ^ 30 places is read without a fault, and is an element of
-- the range.
pub pivot_of_lem :
    (pre seg post : List ℤ) (n : ℕ)
    → length seg ≡ suc n
    → length pre + length seg ≤ 2 ^ 30
    → (v : ℤ) × (pivot_of (pre ++ (seg ++ post)) (length pre) (length pre + n) ≡ ok v)
      × (0 < count (λ z. z ==ℤ v) seg)
unfolding pivot_of
pivot_of_lem pre seg post n size small =
    let s = length pre in
    let mid = (s + n + s) / 2 in
    let (a, at_a, some_a) = in_range pre seg post (s + n) n refl (omega arith) in
    let (b, at_b, some_b) = in_range pre seg post mid (mid - s) (omega arith) (omega arith) in
    (
      min_int (max_int a b) (max_int b a),
      rw (at_a, ◌>>=◌, add_int-ok (s + n) s (omega arith), at_b),
      pivot_cases (λ v. 0 < count (λ z. z ==ℤ v) seg) a b some_a some_b,
    )
