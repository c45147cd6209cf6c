-- ===== src/Tests/KmpTests.antt =====
-- The search run on the text and the pattern of the source's `main`.
use cpp_project.Prelude.{ℕ, ◌≡◌, refl, minus_one, List, [], ◌∷◌}
use cpp_project.Run.{ok, fault, out_of_bounds}
use cpp_project.Kmp.{kmp}
use cpp_project.Kmp.Table.{kmp-cases}

-- "1212334567" and "3345"
abbrev source_text : List ℕ
source_text = 49 ∷ 50 ∷ 49 ∷ 50 ∷ 51 ∷ 51 ∷ 52 ∷ 53 ∷ 54 ∷ 55 ∷ []

abbrev wanted : List ℕ
wanted = 51 ∷ 51 ∷ 52 ∷ 53 ∷ []

kmp-cases_example : kmp source_text wanted ≡ fault out_of_bounds
kmp-cases_example = kmp-cases source_text wanted

shorter : kmp (51 ∷ []) wanted ≡ ok minus_one
unfolding kmp
shorter = refl
