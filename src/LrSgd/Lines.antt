-- ===== src/LrSgd/Lines.antt =====
-- Reading of training data: lines of a label and of features, each an index and a value. A character
-- is its code.
pub mod Cutting
use cpp_project.Prelude.{
  ℕ, zero, suc, ◌+◌, ℤ, pos, Bool, List, [], ◌∷◌, ◌++◌, length, Option, none, some, ltb, ◌==◌,
  if◌then◌else◌,
}
use cpp_project.Run.{Run, ok, fault, diverges, exception, ◌>>=◌}

-- `getline(ss, item, delim)` that finds a character left: the characters before the delimiter, and
-- what is left behind it.
unfoldable pub get_item : ℕ → List ℕ → List ℕ × List ℕ
get_item delim [] = ([], [])
get_item delim (c ∷ rest) =
    let more = get_item delim rest in if c == delim then ([], rest) else (c ∷ more.0, more.1)

-- `while (getline(ss, item, delim))`
unfoldable pub split_loop : ℕ → ℕ → List ℕ → Run (List (List ℕ))
split_loop zero delim s = fault diverges
split_loop (suc fuel) delim [] = ok []
split_loop (suc fuel) delim (c ∷ rest) = do
  let r = get_item delim (c ∷ rest)
  elems ← split_loop fuel delim r.1
  ok (r.0 ∷ elems)

-- Each round takes a character.
unfoldable pub split : ℕ → List ℕ → Run (List (List ℕ))
split delim s = split_loop (suc (length s)) delim s

-- What the reading asks of the library: `stoi` and `stod`, which throw at a text that is no number,
-- and the cast of an `int`.
pub record Numerals (R : Type 0) : Type 0 where
  pub stoi : List ℕ → Option ℤ
  pub stod : List ℕ → Option R
  pub of_int : ℤ → R

unfoldable pub or_throw {ℓ} : {A : Type ℓ} → Option A → Run A
or_throw none = fault exception
or_throw (some a) = ok a

module _ {R : Type 0} (numerals : Numerals R) where
  -- An element of two parts is a feature.
  unfoldable pub feature : List (List ℕ) → Run (List (ℤ × R))
  feature [] = ok []
  feature (idx ∷ []) = ok []
  feature (idx ∷ val ∷ []) = do
    i ← or_throw (numerals.stoi idx)
    x ← or_throw (numerals.stod val)
    ok ((i, x) ∷ [])
  feature (idx ∷ val ∷ more ∷ idx_val) = ok []

  unfoldable pub features : List (List ℕ) → Run (List (ℤ × R))
  features [] = ok []
  features (elem ∷ elems) = do
    idx_val ← split 58 elem
    here ← feature idx_val
    rest ← features elems
    ok (here ++ rest)

  -- The first pair of a line is its label, under the index 0.
  unfoldable pub parse_elems : List (List ℕ) → Run (List (ℤ × R))
  parse_elems [] = ok []
  parse_elems (front ∷ elems) = do
    label ← or_throw (numerals.stoi front)
    res ← features elems
    ok ((pos 0, numerals.of_int label) ∷ res)

  unfoldable pub parse_line : List ℕ → Run (List (ℤ × R))
  parse_line line = do elems ← split 32 line; parse_elems elems

  unfoldable pub parse_lines : List (List ℕ) → Run (List (List (ℤ × R)))
  parse_lines [] = ok []
  parse_lines (line ∷ lines) = do
    data_ins ← parse_line line
    rest ← parse_lines lines
    ok (if ltb 1 (length data_ins) then data_ins ∷ rest else rest)

  -- The text of the file, or none if it cannot be opened.
  unfoldable pub get_training_data : Option (List ℕ) → Run (List (List (ℤ × R)))
  get_training_data none = ok []
  get_training_data (some text) = do lines ← split 10 text; parse_lines lines
