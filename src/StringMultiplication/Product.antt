-- ===== src/StringMultiplication/Product.antt =====
-- `stringMultiply` of StringMultiplication/main.cpp on decimal numerals.
use cpp_project.Prelude.{ℕ, ◌<◌, ◌≡◌, ◌⊎◌, List, [], ◌∷◌, get_or}
use cpp_project.StringMultiplication.Places.{IsDigits}

-- Digits, of which the first is 0 only in the numeral "0".
abbrev pub IsNumeral : List ℕ → Type 0
IsNumeral s = IsDigits s × ((s ≡ 0 ∷ []) ⊎ (0 < get_or s 0 0))
