-- ===== src/Kmp.antt =====
-- KMP/main.cpp: the search of a pattern in a text with a table of where to go on. A text has fewer
-- than 2 ^ 31 characters, so that its length fits an `int`; a character is its code.
pub mod Table
use cpp_project.Prelude.{
  ℕ, zero, suc, ◌+◌, ◌-◌, ◌*◌, ℤ, pos, negsuc, minus_one, increment, ◌==ℤ◌, Bool, true, false, ◌&&◌,
  List, [], ◌∷◌, length, replicate, ltb, ◌==◌, if◌then◌else◌,
}
use cpp_project.Run.{Run, ok, fault, diverges, ◌>>=◌, at, at_int, put_int}

-- `i == -1 || a[i] == b[j]`
unfoldable pub goes_on : List ℕ → ℤ → List ℕ → ℕ → Run Bool
goes_on a i b j = elim (i ==ℤ minus_one) [
  | true ↦ ok true
  | false ↦ do x ← at_int a i; y ← at b j; ok (x == y)
]

-- The loop of `getNext`, for `j < len`.
unfoldable pub next_loop : ℕ → List ℕ → List ℤ → ℤ → ℕ → Run (List ℤ)
next_loop zero pattern_text next i j = fault diverges
next_loop (suc fuel) pattern_text next i j = elim (ltb j (length pattern_text)) [
  | true ↦ do
    b ← goes_on pattern_text i pattern_text j
    elim b [
      | true ↦ do
        next' ← put_int next (pos (j + 1)) (increment i)
        next_loop fuel pattern_text next' (increment i) (j + 1)
      | false ↦ do i' ← at_int next i; next_loop fuel pattern_text next i' j
    ]
  | false ↦ ok next
]

-- Each round makes `2 * j - i` greater. The fuel is positive also for the empty pattern.
unfoldable pub get_next : List ℕ → Run (List ℤ)
get_next pattern_text = do
  next ← put_int (replicate (length pattern_text) (pos 0)) (pos 0) minus_one
  next_loop (2 * length pattern_text + 1) pattern_text next minus_one 0

-- `i < n`
abbrev pub below : ℤ → ℕ → Bool
below (pos i) n = ltb i n
below (negsuc i) n = true

unfoldable pub search_loop : ℕ → List ℕ → List ℤ → List ℕ → ℤ → ℕ → Run (ℤ × ℕ)
search_loop zero ptn next src i j = fault diverges
search_loop (suc fuel) ptn next src i j = elim (below i (length ptn) && ltb j (length src)) [
  | true ↦ do
    b ← goes_on ptn i src j
    elim b [
      | true ↦ search_loop fuel ptn next src (increment i) (j + 1)
      | false ↦ do i' ← at_int next i; search_loop fuel ptn next src i' j
    ]
  | false ↦ ok (i, j)
]

unfoldable pub kmp : List ℕ → List ℕ → Run ℤ
kmp src [] = ok (pos 0)
kmp src (c ∷ rest) = if ltb (length src) (length (c ∷ rest)) then ok minus_one else (do
  next ← get_next (c ∷ rest)
  r ← search_loop (2 * length src + 1) (c ∷ rest) next src (pos 0) 0
  ok (if r.0 ==ℤ pos (length (c ∷ rest)) then pos (r.1 - length (c ∷ rest)) else minus_one))
