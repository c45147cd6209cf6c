-- ===== src/StringMultiplication.antt =====
-- StringMultiplication/main.cpp: the product of two decimal strings, digit by digit. A character is
-- its distance from '0', and a string the list of these; an `int` holds digits and small sums only.
pub mod Places
pub mod Rows
pub mod Product
use cpp_project.Prelude.{
  ℕ, zero, suc, ◌+◌, ◌*◌, ◌/◌, ◌%◌, Bool, true, false, ◌||◌, List, [], ◌∷◌, length, get_or, drop,
  replicate, ◌==◌, if◌then◌else◌,
}
use cpp_project.Run.{Run, ok, ◌>>=◌, at, put}

-- `product`
abbrev pub product_at : ℕ → ℕ → ℕ → ℕ → ℕ
product_at p a b c = p + a * b + c

-- The loop over `j`, from `j - 1` down, for the digit `a` at `i`: the carry, and `proInt`.
unfoldable pub digit_loop : ℕ → List ℕ → ℕ → ℕ → ℕ → List ℕ → Run (ℕ × List ℕ)
unfolding at put
digit_loop a s2 i zero c pro_int = ok (c, pro_int)
digit_loop a s2 i (suc j) c pro_int = do
  p ← at pro_int (i + j + 1)
  b ← at s2 j
  pro_int' ← put pro_int (i + j + 1) (product_at p a b c % 10)
  digit_loop a s2 i j (product_at p a b c / 10) pro_int'

-- The loop over `i`, from `i - 1` down.
unfoldable pub row_loop : List ℕ → List ℕ → ℕ → List ℕ → Run (List ℕ)
unfolding digit_loop
row_loop s1 s2 zero pro_int = ok pro_int
row_loop s1 s2 (suc i) pro_int = do
  a ← at s1 i
  r ← digit_loop a s2 i (length s2) 0 pro_int
  pro_int' ← put r.1 i r.0
  row_loop s1 s2 i pro_int'

-- The test of the first line.
unfoldable pub is_zero : List ℕ → Bool
is_zero [] = true
is_zero (d ∷ ds) = d == 0

unfoldable pub string_multiply : List ℕ → List ℕ → Run (List ℕ)
unfolding is_zero row_loop
string_multiply s1 s2 = if is_zero s1 || is_zero s2 then ok (0 ∷ []) else (do
  pro_int ← row_loop s1 s2 (length s1) (replicate (length s1 + length s2) 0)
  first ← at pro_int 0
  let s = if first == 0 then 1 else 0
  ok (drop s pro_int))
