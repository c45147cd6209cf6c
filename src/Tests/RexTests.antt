-- ===== src/Tests/RexTests.antt =====
-- The automaton run on the texts of the source's own test.
use cpp_project.Prelude.{◌≡◌, refl, ℤ, pos, true, false, Bool, List, [], ◌∷◌, map, arith}
use cpp_project.Run.{Run, ok, ◌>>=◌, at_int, put_int, at, put}
use cpp_project.SimpleRexMatch.Reference.{parse, matches, repeat}
use cpp_project.SimpleRexMatch.Matching.{match_each, match_each-construct}
use cpp_project.SimpleRexMatch.{
  construct, construct_loop, added_states, set_way_out, add_last, is_matched, reset_marks, unmark,
  add_state, push_state, match_loop, visit_all, visit, follow, has_state,
}

-- "b*a"
abbrev pattern_text : List ℤ
pattern_text = pos 98 ∷ pos 42 ∷ pos 97 ∷ []

run : List ℤ → List ℤ → Run Bool
unfolding construct construct_loop added_states set_way_out add_last is_matched reset_marks unmark
    add_state push_state match_loop visit_all visit follow has_state at_int put_int at put
run ptn src = do nfa ← construct ptn; r ← is_matched nfa src; ok r.1

run_short : run pattern_text (pos 97 ∷ []) ≡ ok true
unfolding run construct construct_loop added_states set_way_out add_last is_matched reset_marks
    unmark add_state push_state match_loop visit_all visit follow has_state at_int put_int at put
run_short = refl

run_many : run pattern_text (pos 98 ∷ pos 98 ∷ pos 98 ∷ pos 97 ∷ []) ≡ ok true
unfolding run construct construct_loop added_states set_way_out add_last is_matched reset_marks
    unmark add_state push_state match_loop visit_all visit follow has_state at_int put_int at put
run_many = refl

run_long : run pattern_text (pos 98 ∷ pos 98 ∷ pos 97 ∷ pos 97 ∷ []) ≡ ok false
unfolding run construct construct_loop added_states set_way_out add_last is_matched reset_marks
    unmark add_state push_state match_loop visit_all visit follow has_state at_int put_int at put
run_long = refl

run_other : run pattern_text (pos 98 ∷ pos 98 ∷ pos 99 ∷ []) ≡ ok false
unfolding run construct construct_loop added_states set_way_out add_last is_matched reset_marks
    unmark add_state push_state match_loop visit_all visit follow has_state at_int put_int at put
run_other = refl

-- The empty text, and texts of the source's own test, by the same automaton.
match_each-construct_example :
    (construct pattern_text >>= λ nfa.
    match_each nfa ([] ∷ (pos 97 ∷ []) ∷ (pos 98 ∷ pos 97 ∷ pos 97 ∷ []) ∷ []))
    ≡ ok (
        map
          (matches (parse pattern_text))
          ([] ∷ (pos 97 ∷ []) ∷ (pos 98 ∷ pos 97 ∷ pos 97 ∷ []) ∷ []))
match_each-construct_example =
    match_each-construct pattern_text ([] ∷ (pos 97 ∷ []) ∷ (pos 98 ∷ pos 97 ∷ pos 97 ∷ []) ∷ [])
      (omega arith, (omega arith, (omega arith, tt)))

meant :
    map (matches (parse pattern_text)) ([] ∷ (pos 97 ∷ []) ∷ (pos 98 ∷ pos 97 ∷ pos 97 ∷ []) ∷ [])
    ≡ false ∷ true ∷ false ∷ []
unfolding parse matches repeat
meant = refl
