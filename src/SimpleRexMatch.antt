-- ===== src/SimpleRexMatch.antt =====
-- SimpleRexMatch/Source.cpp: a pattern of characters, '.' and '*' is made into an automaton, which
-- is run on a text with the list of its active states. A character is a `char`, which is signed.
-- The two lists and `_clist` are not kept between calls here: a call clears them before it uses
-- them. What a call leaves in the states is kept.
pub mod Reference
pub mod Layout
pub mod Active
pub mod Closure
pub mod Follow
pub mod Rounds
pub mod Matching
use cpp_project.Prelude.{
  ℕ, zero, suc, ◌+◌, ◌-◌, ℤ, pos, negsuc, minus_one, ◌==ℤ◌, Bool, true, false, ◌||◌, List, [], ◌∷◌,
  ◌++◌, map, length, drop, if◌then◌else◌,
}
use cpp_project.Run.{Run, ok, fault, diverges, ◌>>=◌, at_int, put_int}

abbrev pub split : ℤ
split = pos 256

abbrev pub star : ℤ
star = pos 42

abbrev pub dot : ℤ
dot = pos 46

pub record State : Type 0 where
  pub c : ℤ
  pub out : ℤ
  pub out1 : ℤ
  pub last_list : ℤ

-- `State()`
abbrev pub fresh : State
fresh = record { c = minus_one; out = minus_one; out1 = minus_one; last_list = minus_one }

pub record Nfa : Type 0 where
  pub states : List State
  pub last_state : ℤ

-- `i + 1 < len && ptn[i + 1] == '*'`, on what is behind `ptn[i]`.
abbrev pub is_starred : List ℤ → Bool
is_starred [] = false
is_starred (c ∷ rest) = c ==ℤ star

-- The states that a round of the constructor adds at `size`.
unfoldable pub added_states : ℕ → ℤ → Bool → List State
added_states size c true =
    record fresh { c = split; out = pos (size + 1) } ∷ record fresh { c = c; out = pos size } ∷ []
added_states size c false = record fresh { c = c } ∷ []

-- `if (last_state != -1)`: the last state gets the way out to `size`.
unfoldable pub set_way_out : List State → ℤ → ℕ → Run (List State)
set_way_out states last_state size = elim (last_state ==ℤ minus_one) [
  | true ↦ ok states
  | false ↦ do
    ins ← at_int states last_state
    elim (ins.c ==ℤ split) [
      | true ↦ put_int states last_state (record ins { out1 = pos size })
      | false ↦ put_int states last_state (record ins { out = pos size })
    ]
]

-- `while (i < len)`, on the rest of the pattern from `i`.
unfoldable pub construct_loop : ℕ → List ℤ → List State → ℤ → Run (List State × ℤ)
construct_loop zero ptn states last_state = fault diverges
construct_loop (suc fuel) [] states last_state = ok (states, last_state)
construct_loop (suc fuel) (c ∷ rest) states last_state = do
  let size = length states
  states' ← set_way_out (states ++ added_states size c (is_starred rest)) last_state size
  construct_loop fuel (if is_starred rest then drop 1 rest else rest) states' (pos size)

-- The state behind the pattern.
unfoldable pub add_last : List State × ℤ → Run Nfa
add_last (states, last_state) = do
  states' ← set_way_out (states ++ fresh ∷ []) last_state (length states)
  ok (record { states = states'; last_state = pos (length states) })

-- The constructor: a round takes a character at least.
unfoldable pub construct : List ℤ → Run Nfa
construct ptn = construct_loop (suc (length ptn)) ptn [] minus_one >>= add_last

-- A state is put into the list, and marked with the list's number, if it has not been.
unfoldable pub push_state : List State → List ℤ → ℤ → ℤ → Run (List State × List ℤ)
push_state states list number state = do
  ins ← at_int states state
  elim (ins.last_list ==ℤ number) [
    | true ↦ ok (states, list)
    | false ↦ do
      states' ← put_int states state (record ins { last_list = number })
      ok (states', list ++ state ∷ [])
  ]

-- `_add_state`, on the list that has the number.
unfoldable pub add_state : ℕ → List State → List ℤ → ℤ → ℤ → Run (List State × List ℤ)
add_state zero states list number state = fault diverges
add_state (suc fuel) states list number state = elim (state ==ℤ minus_one) [
  | true ↦ ok (states, list)
  | false ↦ do
    ins ← at_int states state
    elim (ins.c ==ℤ split) [
      | true ↦ do r ← push_state states list number ins.out; add_state fuel r.0 r.1 number ins.out1
      | false ↦ push_state states list number state
    ]
]

-- `if (ins.c == c || ins.c == '.')`
abbrev pub is_hit : ℤ → ℤ → Bool
is_hit a c = (a ==ℤ c) || (a ==ℤ dot)

unfoldable pub follow : List State → List ℤ → ℤ → ℤ → State → Run (List State × List ℤ)
follow states next nlist c ins = elim (is_hit ins.c c) [
  | true ↦ add_state (suc (length states)) states next nlist ins.out
  | false ↦ ok (states, next)
]

-- `ins.last_list = -1`
unfoldable pub unmark : State → State
unmark ins = record ins { last_list = minus_one }

-- One state of the current list meets a character.
unfoldable pub visit : List State → List ℤ → ℤ → ℤ → ℤ → Run (List State × List ℤ)
visit states next nlist c state = do
  ins ← at_int states state
  r ← follow states next nlist c ins
  ins' ← at_int r.0 state
  elim (ins'.last_list ==ℤ nlist) [
    | true ↦ ok r
    | false ↦ do states' ← put_int r.0 state (unmark ins'); ok (states', r.1)
  ]

unfoldable pub visit_all : List State → List ℤ → ℤ → ℤ → List ℤ → Run (List State × List ℤ)
visit_all states next nlist c [] = ok (states, next)
visit_all states next nlist c (state ∷ current) = do
  r ← visit states next nlist c state
  visit_all r.0 r.1 nlist c current

-- The loop at the end.
unfoldable pub has_state : ℤ → List ℤ → Bool
has_state last_state [] = false
has_state last_state (state ∷ current) = (state ==ℤ last_state) || has_state last_state current

-- `for (char c : src)`. The list of the number `nlist` is empty at the start of a round.
unfoldable pub match_loop : List ℤ → List State → List ℤ → ℤ → ℤ → ℤ → Run (List State × Bool)
match_loop [] states current clist nlist last_state = ok (states, has_state last_state current)
match_loop (c ∷ src) states current clist nlist last_state = do
  r ← visit_all states [] nlist c current
  elim r.1 [ [] ↦ ok (r.0, false) | state ∷ next ↦ match_loop src r.0 r.1 nlist clist last_state ]

unfoldable pub reset_marks : List State → List State
reset_marks states = map unmark states

unfoldable pub is_matched : Nfa → List ℤ → Run (Nfa × Bool)
is_matched nfa src = do
  r ← add_state (suc (length nfa.states)) (reset_marks nfa.states) [] (pos 0) (pos 0)
  m ← match_loop src r.0 r.1 (pos 0) (pos 1) nfa.last_state
  ok (record nfa { states = m.0 }, m.1)
