-- ===== src/Tests/MultiplicationTests.antt =====
-- A product of decimal strings, and the witness of its theorem.
use cpp_project.Prelude.{ℕ, ◌≡◌, refl, List, [], ◌∷◌}
use cpp_project.Run.{ok}
use cpp_project.StringMultiplication
use cpp_project.StringMultiplication.{string_multiply}

abbrev hundred_nine : List ℕ
hundred_nine = 1 ∷ 0 ∷ 9 ∷ []

squared : string_multiply hundred_nine hundred_nine ≡ ok (1 ∷ 1 ∷ 8 ∷ 8 ∷ 1 ∷ [])
unfolding string_multiply StringMultiplication.is_zero StringMultiplication.row_loop
    StringMultiplication.digit_loop
squared = refl
