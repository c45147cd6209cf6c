-- ===== src/SimpleRexMatch/Reference.antt =====
-- What a pattern means: it is a row of single characters and of repeated ones, and a text matches
-- it or not.
use cpp_project.Prelude.{ℤ, pos, ◌==ℤ◌, Bool, true, false, ◌&&◌, ◌||◌, List, [], ◌∷◌, if◌then◌else◌}

pub data Item : Type 0 where
  one many : ℤ → Item

-- A character of the pattern meets itself; '.', which is 46, meets all.
abbrev pub meets : ℤ → ℤ → Bool
meets c x = (c ==ℤ x) || (c ==ℤ pos 46)

-- A character before '*', which is 42, is repeated.
unfoldable pub parse : List ℤ → List Item
parse [] = []
parse (c ∷ []) = one c ∷ []
parse (c ∷ d ∷ rest) =
    let plain = one c ∷ parse (d ∷ rest) in
    let repeated = many c ∷ parse rest in if d ==ℤ pos 42 then repeated else plain

-- `c` any number of times, then what `next` accepts.
unfoldable pub repeat : ℤ → (List ℤ → Bool) → List ℤ → Bool
repeat c next [] = next []
repeat c next (x ∷ src) = (meets c x && repeat c next src) || next (x ∷ src)

abbrev pub is_empty : List ℤ → Bool
is_empty [] = true
is_empty (x ∷ src) = false

unfoldable pub matches : List Item → List ℤ → Bool
matches [] src = is_empty src
matches (one c ∷ items) [] = false
matches (one c ∷ items) (x ∷ src) = meets c x && matches items src
matches (many c ∷ items) src = repeat c (matches items) src
